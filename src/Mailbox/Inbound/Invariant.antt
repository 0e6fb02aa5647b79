-- ===== src/Mailbox/Inbound/Invariant.antt =====
-- What holds of the inbound queue after any interleaving of the two threads.
use mathlib.Core.List.{Sublist, append-nil, nil-sublist, sublist-cons_self}
use mathlib.Core.List.Sublist
use mathlib.Core.Path.{subst}
use data_pipeline_orchestrat.Base.{
  ℕ, ◌+◌, ◌≤◌, ◌<◌, ◌≡◌, refl, sym, ap, ◌∙◌, arith, List, [], ◌∷◌, ◌++◌, true, false, length,
  length-append, ◌≢◌,
}
use data_pipeline_orchestrat.Mailbox.Inbound.{
  QueuePolicy, block, drop_oldest, conflate, Receiver, idle, blocking, retrying, storing, Inbound,
  new_inbound, is_full, append, in_hand,
}

module _ {M : Type 0} where
  -- What the receiver thread may rely on where it stands.
  abbrev pub Ready : Receiver M → Inbound M → Type 0
  Ready (retrying m) s = is_full s ≡ false
  Ready (storing m) s = s.queue ≡ []
  Ready _ s = Unit

  -- Only `_enqueue_block` runs under the policy `block`.
  abbrev pub Matches : QueuePolicy → Receiver M → Type 0
  Matches block idle = Unit
  Matches block (blocking m) = Unit
  Matches block _ = ⊥
  Matches _ r = Unit

  -- The messages in the order in which the node gets them.
  abbrev pub view : Receiver M → Inbound M → List M
  view r s = s.received ++ (s.queue ++ in_hand r)

  -- The invariant, with the receiver thread at `r`.
  pub record InvAt (r : Receiver M) (s : Inbound M) : Type 0 where
    pub bounded : 0 < s.maxsize → length s.queue ≤ s.maxsize
    pub counted :
        s.running ≡ true
        → length s.received + length s.queue + length (in_hand r) + s.drops ≡ length s.arrived
    pub ready : Ready r s
    pub matching : Matches s.policy r
    pub ordered : Sublist (view r s) s.arrived
    pub lossless : s.running ≡ true → s.policy ≡ block → view r s ≡ s.arrived

  abbrev pub Inv : Inbound M → Type 0
  Inv s = InvAt s.receiver s

pub idle-Matches : (M : Type 0) (p : QueuePolicy) → Matches {M = M} p idle
idle-Matches M block = tt
idle-Matches M _ = tt

module _ {M : Type 0} where
  pub new_inbound-Inv :
      (policy : QueuePolicy) (maxsize : ℕ) → Inv (new_inbound {M = M} policy maxsize)
  unfolding new_inbound
  new_inbound-Inv policy maxsize = record {
    bounded = λ h. omega arith;
    counted = λ h. omega arith;
    ready = tt;
    matching = idle-Matches M policy;
    ordered = Sublist.refl [];
    lossless = λ _ _. refl;
  }

  -- Putting the message in hand at the end of a queue that is not full.
  pub append-Inv :
      (r : Receiver M) (m : M) (s : Inbound M)
      → in_hand r ≡ m ∷ []
      → is_full s ≡ false
      → InvAt r s
      → Inv (append s m)
  append-Inv r m s e room h = record {
    bounded = λ pos. let n = length-append s.queue (m ∷ []) in ground (arith, n, h.bounded pos);
    counted =
        λ on. let n = length-append s.queue (m ∷ []) in omega (arith, n, h.counted on, ap length e);
    ready = tt;
    matching = idle-Matches M s.policy;
    ordered = subst (λ l. Sublist l s.arrived) (sym same) h.ordered;
    lossless = λ on p. same ∙ h.lossless on p;
  }
    where
      same : s.received ++ ((s.queue ++ m ∷ []) ++ []) ≡ view r s
      same = rw (append-nil, e)

  -- Removing the oldest message, which is counted as a drop.
  pub drop-Inv :
      (r r' : Receiver M) (x : M) (rest : List M) (s : Inbound M)
      → in_hand r' ≡ in_hand r
      → s.queue ≡ x ∷ rest
      → (s.policy ≢ block)
      → Ready r' (record s { queue = rest; drops = s.drops + 1; receiver = r' })
      → Matches s.policy r'
      → InvAt r s
      → Inv (record s { queue = rest; drops = s.drops + 1; receiver = r' })
  drop-Inv r r' x rest s e q lossy ready' matching' h = record {
    bounded = λ pos. omega (arith, ap length q, h.bounded pos);
    counted = λ on. omega (arith, ap length q, h.counted on, ap length e);
    ready = ready';
    matching = matching';
    ordered = Sublist.trans fewer h.ordered;
    lossless = λ on p. absurd (lossy p);
  }
    where
      fewer : Sublist (s.received ++ (rest ++ in_hand r')) (view r s)
      fewer =
          rw (e, q)
            (Sublist.append (Sublist.refl s.received) (sublist-cons_self x (rest ++ in_hand r)))

  -- A step that moves only the receiver thread.
  pub move-Inv :
      (r r' : Receiver M) (s : Inbound M)
      → in_hand r' ≡ in_hand r
      → Ready r' (record s { receiver = r' })
      → Matches s.policy r'
      → InvAt r s
      → Inv (record s { receiver = r' })
  move-Inv r r' s e ready' matching' h = record {
    bounded = h.bounded;
    counted = λ on. omega (arith, h.counted on, ap length e);
    ready = ready';
    matching = matching';
    ordered = rw e h.ordered;
    lossless = λ on p. rw e (h.lossless on p);
  }

  -- A message that is dropped while it is in hand.
  pub discard-Inv :
      (r : Receiver M) (m : M) (s : Inbound M)
      → in_hand r ≡ m ∷ []
      → s.policy ≢ block
      → InvAt r s
      → Inv (record s { drops = s.drops + 1; receiver = idle })
  discard-Inv r m s e lossy h = record {
    bounded = h.bounded;
    counted = λ on. omega (arith, h.counted on, ap length e);
    ready = tt;
    matching = idle-Matches M s.policy;
    ordered = Sublist.trans fewer h.ordered;
    lossless = λ on p. absurd (lossy p);
  }
    where
      fewer : Sublist (s.received ++ (s.queue ++ [])) (view r s)
      fewer =
          Sublist.append (Sublist.refl s.received)
            (Sublist.append (Sublist.refl s.queue) (nil-sublist (in_hand r)))

  -- A mailbox that is not running gives the message up.
  pub abandon-Inv :
      (r : Receiver M) (s : Inbound M)
      → s.running ≡ false
      → InvAt r s
      → Inv (record s { receiver = idle })
  abandon-Inv r s off h = record {
    bounded = h.bounded;
    counted = λ on. absurd (cc);
    ready = tt;
    matching = idle-Matches M s.policy;
    ordered = Sublist.trans fewer h.ordered;
    lossless = λ on p. absurd (cc);
  }
    where
      fewer : Sublist (s.received ++ (s.queue ++ [])) (view r s)
      fewer =
          Sublist.append (Sublist.refl s.received)
            (Sublist.append (Sublist.refl s.queue) (nil-sublist (in_hand r)))

  -- The policy of a thread that stands in a lossy routine.
  pub lossy : (p : QueuePolicy) (r : Receiver M) → Matches p r → ¬ Matches block r → p ≢ block
  lossy p r h bad e = bad (subst (λ q. Matches q r) e h)

  pub other-Matches : (p : QueuePolicy) (r : Receiver M) → p ≢ block → Matches p r
  other-Matches block r h = absurd (h refl)
  other-Matches drop_oldest r h = tt
  other-Matches conflate r h = tt
