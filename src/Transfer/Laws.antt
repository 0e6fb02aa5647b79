-- ===== src/Transfer/Laws.antt =====
-- What `put` delivers.
use data_pipeline_orchestrat.Base.{
  ◌≡◌, refl, ℕ, zero, suc, ◌+◌, ◌≤◌, ◌<◌, Option, none, some, List, [], ◌∷◌, ◌++◌, Bool, true,
  false, last_n, length-last_n, length, Bool-cases, inl, inr, arith,
}
use data_pipeline_orchestrat.Transfer.{
  Socket, connected, Producer, timeout_ms, or_default, Log, logged, put_loop, put,
}

-- A send that is not acknowledged is followed by another of the same item; the acknowledged ones are
-- these items, in this order.
unfoldable pub Delivers : {A : Type 0} → Log A → List A → Type 0
Delivers [] [] = Unit
Delivers [] (item ∷ items) = ⊥
Delivers ((sent, acknowledged) ∷ log) [] = ⊥
Delivers ((sent, true) ∷ log) (item ∷ items) = (sent ≡ item) × Delivers log items
Delivers ((sent, false) ∷ log) (item ∷ items) = (sent ≡ item) × Delivers log (item ∷ items)

-- The outcome of a loop that delivers the items and leaves none.
abbrev pub Done : {A W : Type 0} → List A → Option (Producer A × W × Log A) → Type 0
Done items none = ⊥
Done items (some (p, w, log)) = (p.deque ≡ []) × Delivers log items

logged-sent :
    {A W : Type 0} (item : A) (items : List A) (r : Option (Producer A × W × Log A))
    → Done items r
    → Done (item ∷ items) (logged (item, true) r)
unfolding Delivers
logged-sent item items none done = done
logged-sent item items (some (p, w, log)) done = (done.0, (refl, done.1))

logged-again :
    {A W : Type 0} (item : A) (items : List A) (r : Option (Producer A × W × Log A))
    → Done (item ∷ items) r
    → Done (item ∷ items) (logged (item, false) r)
unfolding Delivers
logged-again item items none done = done
logged-again item items (some (p, w, log)) done = (done.0, (refl, done.1))

-- A producer that connects to its port.
abbrev pub attached : {A : Type 0} → ℕ → ℕ → List A → Producer A
attached n maxlen deque = record {
  port = suc n;
  deque = deque;
  maxlen = maxlen;
  socket = connected (suc n);
}

-- A consumer that can be reached at the port misses only so many more replies.
pub record Answers {A W : Type 0} (exchange : Socket → A → ℕ → W → Bool × W) (port : ℕ)
    (left : W → ℕ) : Type 0 where
  pub in_time :
      (item : A) (timeout : ℕ) (w : W)
      → (exchange (connected port) item timeout w).0 ≡ true
      → left (exchange (connected port) item timeout w).1 ≤ left w
  pub late :
      (item : A) (timeout : ℕ) (w : W)
      → (exchange (connected port) item timeout w).0 ≡ false
      → left (exchange (connected port) item timeout w).1 < left w

module _ {A W : Type 0} (random_port : W → ℕ × W) (exchange : Socket → A → ℕ → W → Bool × W) (n : ℕ)
    (left : W → ℕ) (answers : Answers exchange (suc n) left) where
  put_loop-Done :
      (items : List A) (fuel timeout maxlen : ℕ) (deque : List A) (w : W)
      → left w + length items ≤ fuel
      → Done items (put_loop random_port exchange fuel timeout (attached n maxlen deque) items w)
  unfolding put_loop
  put_loop-Done [] fuel timeout maxlen deque w enough = unfold Delivers in (refl, tt)
  put_loop-Done (item ∷ items) zero timeout maxlen deque w enough = absurd (omega arith)
  put_loop-Done (item ∷ items) (suc fuel) timeout maxlen deque w enough =
      let x = exchange (connected (suc n)) item timeout w in
      elim (Bool-cases x.0) [
        | inl replied ↦ rw replied (
            logged-sent item items
              (put_loop random_port exchange fuel timeout (attached n maxlen deque) items x.1)
              (put_loop-Done items fuel timeout maxlen deque x.1
                (omega (arith, answers.in_time item timeout w replied))))
        | inr missed ↦ rw missed (
            logged-again item items
              (put_loop random_port exchange fuel timeout (attached n maxlen deque) (item ∷ items)
                x.1)
              (put_loop-Done (item ∷ items) fuel timeout maxlen deque x.1
                (omega (arith, answers.late item timeout w missed))))
      ]

  -- A producer that was given a port, with a consumer there that misses only finitely many replies:
  -- `put` ends, with an empty deque. The items of the deque, less those that it dropped for its bound,
  -- and then the new one are acknowledged, each once and in this order, and every send without an
  -- acknowledgement is followed by another of the same item.
  pub put-Done :
      (fuel : ℕ) (item : A) (timeout : Option ℕ) (maxlen : ℕ) (deque : List A) (w : W)
      → left w + maxlen ≤ fuel
      → Done
          (last_n maxlen (deque ++ item ∷ []))
          (put random_port exchange fuel item timeout (attached n maxlen deque) w)
  unfolding put
  put-Done fuel item timeout maxlen deque w enough =
      put_loop-Done (last_n maxlen (deque ++ item ∷ [])) fuel (or_default timeout timeout_ms) maxlen
        deque w (omega (arith, length-last_n maxlen (deque ++ item ∷ [])))
