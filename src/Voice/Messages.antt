-- ===== src/Voice/Messages.antt =====
-- The messages of the voice nodes, core/communication/messaging/types.py, and calls of a backend from
-- the body of a generator. A text is the list of its code points, and a recording the list of its
-- samples; time stamps, the language of a text, and the channels and `is_final` of a recording are left
-- out, since no node of the assistant reads them.
use data_pipeline_orchestrat.Base.{
  ◌≡◌, refl, sym, ℕ, String, Option, none, some, List, [], ◌∷◌, ◌++◌, Bool, true, false, ◌&&◌, ◌||◌,
  leb, ◌==◌, ==_iff, eq_iff, arith, Act, Outcome, returned, raised,
}
use mathlib.Core.List.{append_assoc}
use data_pipeline_orchestrat.Policy.Execute.{
  Gen, effect, fails, Callbacks, Attempt, done, items, drain,
}
use data_pipeline_orchestrat.Mailbox.Snapshot.{Turn, same_turn, same_session, same_number}

abbrev pub Text : Type 0
Text = List ℕ

pub record AudioChunk (A : Type 0) : Type 0 where
  pub source : String
  pub samples : List A
  pub sample_rate : ℕ
  pub turn : Turn
  pub drop : Bool

pub record TextChunk : Type 0 where
  pub source : String
  pub text : Text
  pub turn : Turn
  pub is_final : Bool
  pub drop : Bool

-- "".join(parts), np.concatenate(parts)
abbrev pub concat : {A : Type 0} → List (List A) → List A
concat [] = []
concat (x ∷ xs) = x ++ concat xs

pub concat-append :
    {A : Type 0} (xs ys : List (List A)) → concat (xs ++ ys) ≡ concat xs ++ concat ys
concat-append [] ys = refl
concat-append (x ∷ xs) ys = rw (concat-append xs ys) (sym (append_assoc x (concat xs) (concat ys)))

-- turn_key == key, where the key may be None
abbrev pub same_key : Turn → Option Turn → Bool
same_key turn none = false
same_key turn (some key) = same_turn turn key

pub same_turn_refl : (t : Turn) → same_turn t t ≡ true
same_turn_refl t = rw (session t.session_id, number t.turn_id) refl
  where
    session : (o : Option String) → same_session o o ≡ true
    session none = refl
    session (some a) = ground (arith, eq_iff a a)

    number : (o : Option ℕ) → same_number o o ≡ true
    number none = refl
    number (some n) = ground (arith, ==_iff n n)

-- str.isspace of one character
unfoldable pub is_space : ℕ → Bool
is_space c =
    leb 9 c && leb c 13
    || leb 28 c && leb c 32
    || c == 133
    || c == 160
    || c == 5760
    || leb 8192 c && leb c 8202
    || c == 8232
    || c == 8233
    || c == 8239
    || c == 8287
    || c == 12288

-- Statements that read the world and go on.
abbrev pub with_world : {W V : Type 0} → (W → Gen W V) → Gen W V
with_world body = effect (λ w. w) body

-- Statements that change the world to `w`.
abbrev pub set_world : {W V : Type 0} → W → Gen W V → Gen W V
set_world w rest = effect (λ _. w) (λ _. rest)

-- A call that may raise; `rest` goes on with how it ended.
abbrev pub perform : {W V A : Type 0} → Act W A → (Outcome A → Gen W V) → Gen W V
perform call rest = with_world λ w. let (o, w') = call w in set_world w' (rest o)

-- How a call ends whose error the node does not take.
abbrev pub perform_or_raise : {W V A : Type 0} → Act W A → (A → Gen W V) → Gen W V
perform_or_raise call rest = perform call λ o. elim o [ returned a ↦ rest a | raised e ↦ fails e ]

-- self.backend.f(...), for a node whose state lies beside the world of the backend
abbrev pub beside : {S X A : Type 0} → (S → X) → (X → S → S) → Act X A → Act S A
beside outside put call s = let (o, x) = call (outside s) in (o, put x s)

-- The callbacks of a caller that gives none, so that the items are collected.
abbrev pub no_callbacks : {W F V : Type 0} → Callbacks W F V
no_callbacks = record { wait = none; on_item = none; is_cancelled = none }

-- What an attempt has yielded to a caller that gives no callbacks.
abbrev pub emitted : {V : Type 0} → Attempt V → List V
emitted (done (items vs)) = vs
emitted _ = []

-- The draining of the generators for one item after the other, with all that they yield.
unfoldable pub run_all :
    {W V Item : Type 0} (F : Type 0) → (Item → W → Gen W V) → List Item → W → List V × W
unfolding drain
run_all F body [] w = ([], w)
run_all F body (i ∷ is) w =
    let (a, w1) = drain {F = F} no_callbacks (body i w) false [] w in
    let (vs, w2) = run_all F body is w1 in (emitted a ++ vs, w2)
