-- ===== src/Mailbox/Snapshot/Laws.antt =====
-- What of a mailbox survives the crossing into the node's process, and what does not.
use data_pipeline_orchestrat.Base.{
  ℕ, ◌≡◌, refl, sym, ap, ◌∙◌, arith, List, [], ◌∷◌, ◌++◌, Bool, false, ◌||◌, length, contains, Dict,
  Outcome, returned, raised,
}
use Prim.Native.String.{◌++◌ as text_append}
use data_pipeline_orchestrat.Mailbox.Inbound.{Inbound, new_inbound, is_full, Reach}
use data_pipeline_orchestrat.Mailbox.Inbound.Laws.{Reach-Keeps}
use data_pipeline_orchestrat.Mailbox.Outbound.{ZeroQueuePub}
use data_pipeline_orchestrat.Mailbox.Snapshot.{
  Turn, same_turn, Mailbox, Control, cancel, unexpected, control_receive, has_turn, is_cancelled,
  port_of, get_state, set_state, rebuild,
}

contains-snoc-false :
    (p q : ℕ) (xs : List ℕ) → contains p (xs ++ q ∷ []) ≡ false → contains p xs ≡ false
contains-snoc-false p q [] h = refl
contains-snoc-false p q (x ∷ xs) h = ground (arith, contains-snoc-false p q xs)

-- None of the ports is in the first list, and they are distinct.
abbrev pub Fresh : List ℕ → List ℕ → Type 0
Fresh old [] = Unit
Fresh old (p ∷ ps) = (contains p old ≡ false) × Fresh (old ++ p ∷ []) ps

-- A socket that has ports, none of them twice.
abbrev pub Connected : ZeroQueuePub → Type 0
Connected s = elim s.connected_ports [ [] ↦ ⊥ | p ∷ ps ↦ Fresh (p ∷ []) ps ]

abbrev pub AllConnected : Dict ZeroQueuePub → Type 0
AllConnected [] = Unit
AllConnected ((target, s) ∷ pubs) = Connected s × AllConnected pubs

-- A control socket, as `add_control_publisher` makes it: one port each.
abbrev pub Single : ZeroQueuePub → Type 0
Single s = s.connected_ports ≡ port_of s ∷ []

abbrev pub Singles : List ZeroQueuePub → Type 0
Singles [] = Unit
Singles (s ∷ ss) = Single s × Singles ss

abbrev pub AllSingle : Dict (List ZeroQueuePub) → Type 0
AllSingle [] = Unit
AllSingle ((target, ss) ∷ rest) = Singles ss × AllSingle rest

abbrev socket : List ℕ → ZeroQueuePub
socket ports = record { connected_ports = ports }

module _ {M : Type 0} (mb : Mailbox M) where
  -- The mailbox in the child process: a new queue, everything else as it was.
  abbrev pub moved : Mailbox M
  moved = record mb {
    name = text_append "PICKLED|" mb.name;
    inbound = new_inbound mb.inbound.policy (length mb.inbound.queue);
  }

module _ {M : Type 0} where
  is_full-unbounded : (s : Inbound M) → s.maxsize ≡ 0 → is_full s ≡ false
  is_full-unbounded s e = rw e refl

  -- A mailbox that is pickled while no message waits comes back without a bound: whatever its
  -- configured size was, the rebuilt queue is never full in any state that its threads can reach.
  pub pickled_unbounded :
      (mb mb' : Mailbox M) (s : Inbound M)
      → mb.inbound.queue ≡ []
      → set_state (get_state mb) ≡ returned mb'
      → Reach mb'.inbound s
      → is_full s ≡ false
  unfolding set_state get_state new_inbound
  pickled_unbounded mb mb' s empty e r = is_full-unbounded s ((Reach-Keeps r).1 ∙ rebuilt _ e)
    where
      bound : Outcome (Mailbox M) → ℕ
      bound (raised x) = 0
      bound (returned x) = x.inbound.maxsize

      rebuilt :
          (o : Outcome (Dict ZeroQueuePub))
          → rebuild (get_state mb) o ≡ returned mb'
          → mb'.inbound.maxsize ≡ 0
      rebuilt (raised x) f = cc
      rebuilt (returned pubs) f = ap bound (sym f) ∙ ap length empty

  -- The control thread over a list of messages.
  pub control_run : List Control → Mailbox M → Mailbox M
  control_run [] mb = mb
  control_run (c ∷ cs) mb = control_run cs (control_receive c mb)

abbrev pub cancels : Turn → List Control → Bool
cancels turn [] = false
cancels turn (cancel t ∷ cs) = same_turn turn t || cancels turn cs
cancels turn (unexpected ∷ cs) = cancels turn cs

module _ {M : Type 0} where
  -- After any messages on the control channel exactly the turns are cancelled that were before or
  -- that a CANCEL among the messages names.
  pub cancelled_exactly :
      (turn : Turn) (cs : List Control) (mb : Mailbox M)
      → is_cancelled (control_run cs mb) turn ≡ (is_cancelled mb turn || cancels turn cs)
  unfolding control_run control_receive is_cancelled has_turn
  cancelled_exactly turn [] mb = ground arith
  cancelled_exactly turn (cancel t ∷ cs) mb =
      ground (arith, cancelled_exactly turn cs (control_receive (cancel t) mb))
  cancelled_exactly turn (unexpected ∷ cs) mb = cancelled_exactly turn cs mb
