-- ===== src/Transfer/Endpoint.antt =====
-- What goes wrong where sends fail: the socket of a producer that chose its port, and the order of items
-- that `put_nowait` keeps.
use data_pipeline_orchestrat.Base.{
  ◌≡◌, refl, ap, ℕ, zero, suc, ◌+◌, ◌≤◌, ◌<◌, Option, none, some, List, [], ◌∷◌, ◌++◌, Bool, false,
  last_n, take_all, last_n_all, length, length-append, length-drop, ◌-◌, ◌/◌, arith,
}
use data_pipeline_orchestrat.Transfer.{
  Socket, bound, connected, Producer, timeout_ms, or_default, deque_len, logged, attach,
  new_producer, reconnect, put_loop, put, put_nowait,
}
use data_pipeline_orchestrat.Transfer.Laws.{attached, Answers, Done, put-Done}

-- A producer that bound its port, as `init` does where none is given.
abbrev pub owner : {A : Type 0} → ℕ → ℕ → List A → Producer A
owner n maxlen deque = record {
  port = suc n;
  deque = deque;
  maxlen = maxlen;
  socket = bound (suc n);
}

module _ {A W : Type 0} (random_port : W → ℕ × W) (exchange : Socket → A → ℕ → W → Bool × W)
    (n maxlen : ℕ)
    (unanswered : (item : A) (timeout : ℕ) (w : W)
      → (exchange (connected (suc n)) item timeout w).0 ≡ false) where
  put_loop_endless :
      (fuel timeout : ℕ) (deque : List A) (item : A) (items : List A) (w : W)
      → put_loop random_port exchange fuel timeout (attached n maxlen deque) (item ∷ items) w ≡ none
  unfolding put_loop
  put_loop_endless zero timeout deque item items w = refl
  put_loop_endless (suc fuel) timeout deque item items w = rw (unanswered item timeout w) (
      ap (logged (item, false)) (
        put_loop_endless fuel timeout deque item items
          (exchange (connected (suc n)) item timeout w).1))

  owner_endless :
      (fuel timeout : ℕ) (deque items : List A) (w : W)
      → 0 < length items
      → ((i : A) → (exchange (bound (suc n)) i timeout w).0 ≡ false)
      → put_loop random_port exchange fuel timeout (owner n maxlen deque) items w ≡ none
  unfolding put_loop
  owner_endless fuel timeout deque [] w some_item missed = absurd (omega arith)
  owner_endless zero timeout deque (item ∷ items) w some_item missed = refl
  owner_endless (suc fuel) timeout deque (item ∷ items) w some_item missed = rw (missed item) (
      ap (logged (item, false)) (
        put_loop_endless fuel timeout deque item items (exchange (bound (suc n)) item timeout w).1))

  put_endless :
      (fuel : ℕ) (item : A) (timeout : Option ℕ) (deque : List A) (w : W)
      → 0 < maxlen
      → ((i : A) → (exchange (bound (suc n)) i (or_default timeout timeout_ms) w).0 ≡ false)
      → put random_port exchange fuel item timeout (owner n maxlen deque) w ≡ none
  unfolding put
  put_endless fuel item timeout deque w room missed =
      let waiting = deque ++ item ∷ [] in
      owner_endless fuel (or_default timeout timeout_ms) deque (last_n maxlen waiting) w
        (omega
          (arith, length-append deque (item ∷ []), length-drop (length waiting - maxlen) waiting))
        missed

some_room : (len : Option ℕ) → 0 < or_default len deque_len
some_room none = omega arith
some_room (some zero) = omega arith
some_room (some (suc k)) = omega arith

module _ {A W : Type 0} (random_port : W → ℕ × W) (exchange : Socket → A → ℕ → W → Bool × W)
    (n : ℕ) where
  -- A producer that is given no port binds its socket to the port that the system picks, and `init`
  -- after a missed reply connects to that port instead. If no exchange over a socket that connects to
  -- it is ever acknowledged, since the consumers connect to it too, then once an exchange over the
  -- bound socket is missed, `put` does not return, however long it goes on and whatever the deque
  -- holds.
  pub put_never_returns :
      (len : Option ℕ) (w w1 : W)
      → random_port w ≡ (suc n, w1)
      → ((item : A) (timeout : ℕ) (u : W) → (exchange (connected (suc n)) item timeout u).0 ≡ false)
      → (fuel : ℕ) (item : A) (timeout : Option ℕ) (deque : List A) (u : W)
      → ((i : A) → (exchange (bound (suc n)) i (or_default timeout timeout_ms) u).0 ≡ false)
      → let p = (new_producer {A = A} random_port none len w).0 in
        (p.socket ≡ bound (suc n))
        × ((reconnect random_port p u).0.socket ≡ connected (suc n))
        × (put random_port exchange fuel item timeout (record p { deque = deque }) u ≡ none)
  unfolding new_producer reconnect attach
  put_never_returns len w w1 picked unanswered fuel item timeout deque u missed = rw picked (
    refl,
    refl,
    put_endless random_port exchange n (or_default len deque_len) unanswered fuel item timeout deque
        u (some_room len) missed,
  )

module _ {A W : Type 0} (random_port : W → ℕ × W) (exchange : Socket → A → ℕ → W → Bool × W) (n : ℕ)
    (left : W → ℕ) (answers : Answers exchange (suc n) left) where
  -- What a failed `put_nowait` leaves: the item in front, where there is room.
  kept_in_front :
      (item : A) (maxlen : ℕ) (deque : List A) (w w1 : W)
      → exchange (connected (suc n)) item (timeout_ms / 5 + 1) w ≡ (false, w1)
      → length deque < maxlen
      → put_nowait random_port exchange item (attached n maxlen deque) w
        ≡ (false, attached n maxlen (item ∷ deque), w1)
  unfolding put_nowait
  kept_in_front item maxlen deque w w1 missed room =
      rw (missed, take_all maxlen (item ∷ deque) (omega arith)) refl

  -- Two items that `put_nowait` could not send are kept in the opposite order. The next `put` delivers
  -- the second before the first, and its own item after both. This takes a deque with room for three,
  -- and a consumer that misses finitely many replies.
  pub put_nowait_reverses :
      (first second third : A) (maxlen fuel : ℕ) (timeout : Option ℕ) (w w1 w2 : W)
      → exchange (connected (suc n)) first (timeout_ms / 5 + 1) w ≡ (false, w1)
      → exchange (connected (suc n)) second (timeout_ms / 5 + 1) w1 ≡ (false, w2)
      → 3 ≤ maxlen
      → left w2 + maxlen ≤ fuel
      → (put_nowait random_port exchange first (attached n maxlen []) w
          ≡ (false, attached n maxlen (first ∷ []), w1))
        × (put_nowait random_port exchange second (attached n maxlen (first ∷ [])) w1
            ≡ (false, attached n maxlen (second ∷ first ∷ []), w2))
        × Done (second ∷ first ∷ third ∷ []) (
            put random_port exchange fuel third timeout
              (attached n maxlen (second ∷ first ∷ []))
              w2)
  put_nowait_reverses first second third maxlen fuel timeout w w1 w2 missed again room enough = (
    kept_in_front first maxlen [] w w1 missed (omega arith),
    kept_in_front second maxlen (first ∷ []) w1 w2 again (omega arith),
    rw (last_n_all maxlen (second ∷ first ∷ third ∷ []) room) at (
        put-Done random_port exchange n left answers fuel third timeout maxlen (second ∷ first ∷ [])
          w2 enough),
  )
