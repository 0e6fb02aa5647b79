-- ===== src/Mailbox/Inbound/Steps.antt =====
-- Every step of either thread keeps the invariant of the inbound queue.
use mathlib.Core.List.{Sublist, append_assoc, append-nil}
use mathlib.Core.List.Sublist
use mathlib.Core.Path.{subst}
use data_pipeline_orchestrat.Base.{
  ◌≡◌, refl, sym, ap, ◌∙◌, arith, List, [], ◌∷◌, ◌++◌, Bool, true, false, length, length-append,
  if◌then◌else◌, ◌≢◌,
}
use data_pipeline_orchestrat.Mailbox.Inbound.{
  QueuePolicy, block, drop_oldest, conflate, Receiver, idle, blocking, putting, evicting, retrying,
  clearing, storing, Inbound, is_full, append, first_call, arrive, enqueue_block, drop_oldest_put,
  drop_oldest_evict, drop_oldest_retry, conflate_clear, conflate_store, receiver_step, receive_from,
  receive, stop, Step, arrives, enqueues, receives, stops, Reach, here, next, in_hand,
}
use data_pipeline_orchestrat.Mailbox.Inbound.Invariant.{
  Ready, Matches, view, InvAt, Inv, append-Inv, drop-Inv, move-Inv, abandon-Inv, lossy,
  other-Matches,
}

module _ {M : Type 0} where
  block-Inv : (m : M) (s : Inbound M) → InvAt (blocking m) s → Inv (enqueue_block s m)
  unfolding enqueue_block
  block-Inv m s h = by_flags s.running (is_full s) refl refl
    where
      by_flags :
          (on full : Bool)
          → s.running ≡ on
          → is_full s ≡ full
          → Inv (
              if on
              then (if full then record s { receiver = blocking m } else append s m)
              else record s { receiver = idle })
      by_flags true true e f = move-Inv (blocking m) (blocking m) s refl tt h.matching h
      by_flags true false e f = append-Inv (blocking m) m s refl f h
      by_flags false full e f = abandon-Inv (blocking m) s e h

  put-Inv : (m : M) (s : Inbound M) → InvAt (putting m) s → Inv (drop_oldest_put s m)
  unfolding drop_oldest_put
  put-Inv m s h = by_flag (is_full s) refl
    where
      not_block : s.policy ≢ block
      not_block = lossy s.policy (putting m) h.matching (λ x. x)

      by_flag :
          (full : Bool)
          → is_full s ≡ full
          → Inv (if full then record s { receiver = evicting m } else append s m)
      by_flag true f =
          move-Inv (putting m) (evicting m) s refl tt (other-Matches s.policy _ not_block) h
      by_flag false f = append-Inv (putting m) m s refl f h

  evict-Inv :
      (m : M) (q : List M) (s : Inbound M)
      → s.queue ≡ q
      → InvAt (evicting m) s
      → Inv (drop_oldest_evict q s m)
  unfolding drop_oldest_evict
  evict-Inv m [] s e h =
      let not_block = lossy s.policy (evicting m) h.matching (λ x. x) in
      move-Inv (evicting m) (retrying m) s refl (ground (arith, ap length e))
        (other-Matches s.policy _ not_block) h
  evict-Inv m (x ∷ rest) s e h =
      let not_block = lossy s.policy (evicting m) h.matching (λ x. x) in
      drop-Inv (evicting m) (retrying m) x rest s refl e not_block
        (ground (arith, ap length e, h.bounded)) (other-Matches s.policy _ not_block) h

  retry-Inv : (m : M) (s : Inbound M) → InvAt (retrying m) s → Inv (drop_oldest_retry s m)
  unfolding drop_oldest_retry
  retry-Inv m s h = rw h.ready (append-Inv (retrying m) m s refl h.ready h)

  clear-Inv :
      (m : M) (q : List M) (s : Inbound M)
      → s.queue ≡ q
      → InvAt (clearing m) s
      → Inv (conflate_clear q s m)
  unfolding conflate_clear
  clear-Inv m [] s e h =
      let not_block = lossy s.policy (clearing m) h.matching (λ x. x) in
      move-Inv (clearing m) (storing m) s refl e (other-Matches s.policy _ not_block) h
  clear-Inv m (x ∷ rest) s e h =
      let not_block = lossy s.policy (clearing m) h.matching (λ x. x) in
      drop-Inv (clearing m) (clearing m) x rest s refl e not_block tt
        (other-Matches s.policy _ not_block) h

  store-Inv : (m : M) (s : Inbound M) → InvAt (storing m) s → Inv (conflate_store s m)
  unfolding conflate_store
  store-Inv m s h =
      let room : is_full s ≡ false = ground (arith, ap length h.ready) in
      rw room (append-Inv (storing m) m s refl room h)

  receiver_step-Inv :
      (r : Receiver M) (s : Inbound M) → s.receiver ≡ r → InvAt r s → Inv (receiver_step r s)
  unfolding receiver_step
  receiver_step-Inv idle s e h = subst (λ x. InvAt x s) (sym e) h
  receiver_step-Inv (blocking m) s e h = block-Inv m s h
  receiver_step-Inv (putting m) s e h = put-Inv m s h
  receiver_step-Inv (evicting m) s e h = evict-Inv m s.queue s refl h
  receiver_step-Inv (retrying m) s e h = retry-Inv m s h
  receiver_step-Inv (clearing m) s e h = clear-Inv m s.queue s refl h
  receiver_step-Inv (storing m) s e h = store-Inv m s h

  -- `receive` moves the oldest message from the queue to the node.
  still-Ready :
      (r : Receiver M) (x : M) (rest : List M) (s : Inbound M)
      → s.queue ≡ x ∷ rest
      → Ready r s
      → Ready r (record s { queue = rest; received = s.received ++ x ∷ [] })
  still-Ready (retrying m) x rest s e h = ground (arith, ap length e)
  still-Ready (storing m) x rest s e h = absurd (cc)
  still-Ready _ x rest s e h = tt

  receive_from-Inv : (q : List M) (s : Inbound M) → s.queue ≡ q → Inv s → Inv (receive_from q s).1
  unfolding receive_from
  receive_from-Inv [] s e h = h
  receive_from-Inv (x ∷ rest) s e h = record {
    bounded = λ pos. omega (arith, ap length e, h.bounded pos);
    counted = λ on. omega (arith, length-append s.received (x ∷ []), ap length e, h.counted on);
    ready = still-Ready s.receiver x rest s e h.ready;
    matching = h.matching;
    ordered = subst (λ l. Sublist l s.arrived) (sym same) h.ordered;
    lossless = λ on p. same ∙ h.lossless on p;
  }
    where
      same : (s.received ++ x ∷ []) ++ (rest ++ in_hand s.receiver) ≡ view s.receiver s
      same = rw (append_assoc, e)

  first_Matches : (p : QueuePolicy) (m : M) → Matches p (first_call p m)
  first_Matches block m = tt
  first_Matches drop_oldest m = tt
  first_Matches conflate m = tt

  first_Ready : (p : QueuePolicy) (m : M) (s : Inbound M) → Ready (first_call p m) s
  first_Ready block m s = tt
  first_Ready drop_oldest m s = tt
  first_Ready conflate m s = tt

  in_hand-first : (p : QueuePolicy) (m : M) → in_hand (first_call p m) ≡ m ∷ []
  in_hand-first block m = refl
  in_hand-first drop_oldest m = refl
  in_hand-first conflate m = refl

  arrive-Inv : (m : M) (s : Inbound M) → s.receiver ≡ idle → Inv s → Inv (arrive m s)
  unfolding arrive
  arrive-Inv m s e h = record {
    bounded = h.bounded;
    counted = λ on. omega (
      arith,
      length-append s.arrived (m ∷ []),
      h.counted on,
      ap length hand,
      ap length (in_hand-first s.policy m),
    );
    ready = first_Ready s.policy m _;
    matching = first_Matches s.policy m;
    ordered =
        subst (λ l. Sublist l (s.arrived ++ m ∷ [])) (sym same)
          (Sublist.append h.ordered (Sublist.refl (m ∷ [])));
    lossless = λ on p. same ∙ ap (λ l. l ++ m ∷ []) (h.lossless on p);
  }
    where
      hand : in_hand s.receiver ≡ []
      hand = ap in_hand e

      same :
          s.received ++ (s.queue ++ in_hand (first_call s.policy m)) ≡ view s.receiver s ++ m ∷ []
      same = rw (in_hand-first, hand, append-nil, append_assoc)

  stop-Inv : (s : Inbound M) → Inv s → Inv (stop s)
  unfolding stop
  stop-Inv s h = record {
    bounded = h.bounded;
    counted = λ on. absurd (cc);
    ready = stays s.receiver h.ready;
    matching = h.matching;
    ordered = h.ordered;
    lossless = λ on p. absurd (cc);
  }
    where
      stays : (r : Receiver M) → Ready r s → Ready r (record s { running = false })
      stays (retrying m) k = k
      stays (storing m) k = k
      stays _ k = tt

  Step-Inv : {s t : Inbound M} → Step s t → Inv s → Inv t
  Step-Inv {s = s} (arrives m e) h = arrive-Inv m s e h
  Step-Inv {s = s} enqueues h = receiver_step-Inv s.receiver s refl h
  Step-Inv {s = s} receives h = unfold receive in receive_from-Inv s.queue s refl h
  Step-Inv {s = s} stops h = stop-Inv s h

  pub Reach-Inv : {s t : Inbound M} → Reach s t → Inv s → Inv t
  Reach-Inv here h = h
  Reach-Inv (next r st) h = Step-Inv st (Reach-Inv r h)
