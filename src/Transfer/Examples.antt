-- ===== src/Transfer/Examples.antt =====
-- A network that misses as many replies as its world says, on sockets that connect only.
use data_pipeline_orchestrat.Base.{
  ◌≡◌, refl, ℕ, zero, suc, ◌≤◌, ◌<◌, none, some, [], ◌∷◌, Bool, true, false, arith,
}
use data_pipeline_orchestrat.Transfer.{Socket, bound, connected, new_producer, reconnect, put}
use data_pipeline_orchestrat.Transfer.Laws.{attached, Answers, Done, put-Done}
use data_pipeline_orchestrat.Transfer.Endpoint.{put_never_returns}

abbrev random_port : ℕ → ℕ × ℕ
random_port w = (4000, w)

abbrev exchange : Socket → ℕ → ℕ → ℕ → Bool × ℕ
exchange socket item timeout zero = (true, 0)
exchange socket item timeout (suc n) = (false, n)

answers : Answers exchange 5000 (λ w. w)
answers = record {
  in_time = λ item timeout w replied. kept item timeout w;
  late = λ item timeout w missed. fewer item timeout w missed;
}
  where
    kept : (item timeout w : ℕ) → (exchange (connected 5000) item timeout w).1 ≤ w
    kept item timeout zero = omega arith
    kept item timeout (suc n) = omega arith

    fewer :
        (item timeout w : ℕ)
        → (exchange (connected 5000) item timeout w).0 ≡ false
        → (exchange (connected 5000) item timeout w).1 < w
    fewer item timeout zero missed = cc
    fewer item timeout (suc n) missed = omega arith

sends_again :
    put random_port exchange 9 7 none (attached 4999 3 (6 ∷ [])) 1
    ≡ some (attached 4999 3 [], 0, (6, false) ∷ (6, true) ∷ (7, true) ∷ [])
unfolding put
sends_again = refl

put-Done_example :
    Done (6 ∷ 7 ∷ []) (put random_port exchange 9 7 none (attached 4999 3 (6 ∷ [])) 1)
put-Done_example =
    put-Done random_port exchange 4999 (λ w. w) answers 9 7 none 3 (6 ∷ []) 1 (omega arith)

-- Its consumers connect, and hear only from a socket that is bound; the first reply is missed.
abbrev only_bound : Socket → ℕ → ℕ → ℕ → Bool × ℕ
only_bound (connected p) item timeout w = (false, w)
only_bound (bound p) item timeout zero = (true, 0)
only_bound (bound p) item timeout (suc n) = (false, n)

put_never_returns_example :
    let p = (new_producer {A = ℕ} random_port none (some 3) 1).0 in
    (p.socket ≡ bound 4000)
    × ((reconnect random_port p 1).0.socket ≡ connected 4000)
    × (put random_port only_bound 50 7 none (record p { deque = 6 ∷ [] }) 1 ≡ none)
put_never_returns_example =
    put_never_returns random_port only_bound 3999 (some 3) 1 1 refl (λ item timeout w. refl) 50 7
      none (6 ∷ []) 1 (λ item. refl)
