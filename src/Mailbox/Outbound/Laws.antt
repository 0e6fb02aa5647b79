-- ===== src/Mailbox/Outbound/Laws.antt =====
-- Publishers after `add_publisher` and its companions, and the ports of a socket.
use mathlib.Core.Path.{subst}
use data_pipeline_orchestrat.Base.{
  ℕ, ◌≡◌, refl, arith, String, eq_iff, Option, none, some, List, [], ◌∷◌, Bool, true, false, ◌||◌,
  contains, contains-append, Distinct, Distinct-snoc, lookup, assign, lookup-assign, length,
  Bool-cases, inl, inr, returned, raised, if◌then◌else◌, str_eq, ==_iff, ◌==◌, Outcome, ◌<◌, ◌≤◌,
  length-append, ◌&&◌, not, ltb, ◌⊎◌, value_error, ◌+◌, Exception,
}
use data_pipeline_orchestrat.Mailbox.Outbound.{
  ZeroQueuePub, remove_first, connect_additional, connect_all, new_pub, disconnect_additional,
  Publishers, add_publisher, register, publish,
}

-- Connecting to a port keeps the ports distinct and adds this one to them.
connect_additional-Distinct :
    (port : ℕ) (s : ZeroQueuePub)
    → Distinct s.connected_ports
    → Distinct (connect_additional port s).connected_ports
unfolding connect_additional
connect_additional-Distinct port s h = elim (Bool-cases (contains port s.connected_ports)) [
  | inl e ↦ rw e h
  | inr e ↦ rw e (Distinct-snoc port s.connected_ports h e)
]

contains-connect_additional :
    (n port : ℕ) (s : ZeroQueuePub)
    → contains n (connect_additional port s).connected_ports
      ≡ (contains n s.connected_ports || n == port)
unfolding connect_additional
contains-connect_additional n port s =
    ground (arith, contains-append n s.connected_ports (port ∷ []), ==_iff n port)

connect_all-Distinct :
    (ports : List ℕ) (s : ZeroQueuePub)
    → Distinct s.connected_ports
    → Distinct (connect_all ports s).connected_ports
unfolding connect_all
connect_all-Distinct [] s h = h
connect_all-Distinct (port ∷ ports) s h =
    connect_all-Distinct ports (connect_additional port s) (connect_additional-Distinct port s h)

contains-connect_all :
    (n : ℕ) (ports : List ℕ) (s : ZeroQueuePub)
    → contains n (connect_all ports s).connected_ports
      ≡ (contains n s.connected_ports || contains n ports)
unfolding connect_all
contains-connect_all n [] s = ground arith
contains-connect_all n (port ∷ ports) s = ground (
  arith,
  contains-connect_all n ports (connect_additional port s),
  contains-connect_additional n port s,
)

abbrev pub ports_of : Option ZeroQueuePub → List ℕ
ports_of none = []
ports_of (some s) = s.connected_ports

new_pub-ports :
    (n : ℕ) (ports : List ℕ) (s : ZeroQueuePub)
    → new_pub ports ≡ returned s
    → contains n s.connected_ports ≡ contains n ports
unfolding new_pub
new_pub-ports n [] s e = cc
new_pub-ports n (port ∷ ports) s e =
    ground (arith, contains-connect_all n ports (record { connected_ports = port ∷ [] }))

refused_ports :
    (n : ℕ) (ports : List ℕ) (x : Exception) → new_pub ports ≡ raised x → contains n ports ≡ false
unfolding new_pub
refused_ports n [] x h = refl
refused_ports n (port ∷ ports) x h = cc

module _ (target : String) (ports : List ℕ) (p : Publishers) where
  registered :
      (k : String) (n : ℕ) (s : Outcome ZeroQueuePub)
      → lookup target p.data_pubs ≡ none
      → new_pub ports ≡ s
      → contains n (ports_of (lookup k (register target p s).1.data_pubs)) ≡ (
          if str_eq target k
          then contains n (ports_of (lookup k p.data_pubs)) || contains n ports
          else contains n (ports_of (lookup k p.data_pubs)))
  registered k n (returned s) e made =
      rw lookup-assign (ground (arith, eq_iff target k, new_pub-ports n ports s made))
  registered k n (raised x) e made = ground (arith, eq_iff target k, refused_ports n ports x made)

  publish-ports :
      (k : String) (n : ℕ) (o : Option ZeroQueuePub)
      → lookup target p.data_pubs ≡ o
      → contains n (ports_of (lookup k (publish o target ports p).1.data_pubs)) ≡ (
          if str_eq target k
          then contains n (ports_of (lookup k p.data_pubs)) || contains n ports
          else contains n (ports_of (lookup k p.data_pubs)))
  unfolding publish
  publish-ports k n (some s) e =
      rw lookup-assign (ground (arith, eq_iff target k, contains-connect_all n ports s))
  publish-ports k n none e = registered k n (new_pub ports) e refl

  -- After `add_publisher` the socket of the target is connected to the ports that it was connected
  -- to and to the given ones, and to no other; every other target keeps its ports. This covers a
  -- target that is new, one that grows, and the refusal of a new target without ports.
  pub add_publisher-ports :
      (k : String) (n : ℕ)
      → contains n (ports_of (lookup k (add_publisher target ports p).1.data_pubs)) ≡ (
          if str_eq target k
          then contains n (ports_of (lookup k p.data_pubs)) || contains n ports
          else contains n (ports_of (lookup k p.data_pubs)))
  unfolding add_publisher
  add_publisher-ports k n = publish-ports k n (lookup target p.data_pubs) refl

-- Every socket is connected, and to no port twice.
pub record IsConnected (p : Publishers) : Type 0 where
  pub at_target :
      (k : String) (s : ZeroQueuePub)
      → lookup k p.data_pubs ≡ some s
      → Distinct s.connected_ports × (0 < length s.connected_ports)

length-connect_all :
    (ports : List ℕ) (s : ZeroQueuePub)
    → length s.connected_ports ≤ length (connect_all ports s).connected_ports
unfolding connect_all connect_additional
length-connect_all [] s = omega arith
length-connect_all (port ∷ ports) s = ground (
  arith,
  length-connect_all ports (connect_additional port s),
  length-append s.connected_ports (port ∷ []),
)

new_pub-connected :
    (ports : List ℕ) (s : ZeroQueuePub)
    → new_pub ports ≡ returned s
    → Distinct s.connected_ports × (0 < length s.connected_ports)
unfolding new_pub
new_pub-connected [] s e = absurd (cc)
new_pub-connected (port ∷ ports) s e =
    let first : ZeroQueuePub = record { connected_ports = port ∷ [] } in
    let made : connect_all ports first ≡ s = cc in
    rw (← made)
      (connect_all-Distinct ports first (refl, tt), omega (arith, length-connect_all ports first))

assign-IsConnected :
    (target : String) (new : ZeroQueuePub) (p : Publishers)
    → Distinct new.connected_ports × (0 < length new.connected_ports)
    → IsConnected p
    → IsConnected (record p { data_pubs = assign target new p.data_pubs })
assign-IsConnected target new p ok h = record {
  at_target = λ k s e. at k s (str_eq target k) refl e;
}
  where
    at :
        (k : String) (s : ZeroQueuePub) (b : Bool)
        → str_eq target k ≡ b
        → lookup k (assign target new p.data_pubs) ≡ some s
        → Distinct s.connected_ports × (0 < length s.connected_ports)
    at k s true t e =
        let q : new ≡ s = ground (arith, lookup-assign target k new p.data_pubs) in
        subst (λ x. Distinct x.connected_ports × (0 < length x.connected_ports)) q ok
    at k s false t e = h.at_target k s (ground (arith, lookup-assign target k new p.data_pubs))

publish-IsConnected :
    (o : Option ZeroQueuePub) (target : String) (ports : List ℕ) (p : Publishers)
    → lookup target p.data_pubs ≡ o
    → IsConnected p
    → IsConnected (publish o target ports p).1
unfolding publish
publish-IsConnected (some s) target ports p e h =
    let (distinct, pos) = h.at_target target s e in
    assign-IsConnected target (connect_all ports s) p
      (connect_all-Distinct ports s distinct, omega (arith, length-connect_all ports s)) h
publish-IsConnected none target ports p e h = by_new (new_pub ports) refl
  where
    by_new :
        (made : Outcome ZeroQueuePub)
        → new_pub ports ≡ made
        → IsConnected (register target p made).1
    by_new (returned s) m = assign-IsConnected target s p (new_pub-connected ports s m) h
    by_new (raised x) m = h

-- `add_publisher`, whether it returns or raises, leaves every socket connected, and to no port
-- twice.
pub add_publisher-IsConnected :
    (target : String) (ports : List ℕ) (p : Publishers)
    → IsConnected p
    → IsConnected (add_publisher target ports p).1
unfolding add_publisher
add_publisher-IsConnected target ports p h =
    publish-IsConnected (lookup target p.data_pubs) target ports p refl h

length-remove_first :
    (n : ℕ) (xs : List ℕ) → contains n xs ≡ true → length (remove_first n xs) + 1 ≡ length xs
length-remove_first n [] h = cc
length-remove_first n (x ∷ xs) h = ground (arith, length-remove_first n xs)

contains-remove_first :
    (m n : ℕ) (xs : List ℕ)
    → Distinct xs
    → contains m (remove_first n xs) ≡ (contains m xs && not (m == n))
contains-remove_first m n [] h = refl
contains-remove_first m n (x ∷ xs) h = ground (arith, contains-remove_first m n xs h.1, h.0)

Distinct-remove_first : (n : ℕ) (xs : List ℕ) → Distinct xs → Distinct (remove_first n xs)
Distinct-remove_first n [] h = tt
Distinct-remove_first n (x ∷ xs) h = elim (Bool-cases (n == x)) [
  | inl e ↦ rw e h.1
  | inr e ↦
      rw e (ground (arith, contains-remove_first x n xs h.1, h.0), Distinct-remove_first n xs h.1)
]

-- The socket without the port, or the reason for the refusal.
abbrev pub Disconnects : ℕ → ZeroQueuePub → Outcome ZeroQueuePub → Type 0
Disconnects port s (returned t) =
    (contains port s.connected_ports ≡ true)
    × (0 < length t.connected_ports)
    × Distinct t.connected_ports
    × ((m : ℕ) → contains m t.connected_ports ≡ (contains m s.connected_ports && not (m == port)))
Disconnects port s (raised e) =
    (e ≡ value_error) × ((contains port s.connected_ports ≡ false) ⊎ (length s.connected_ports ≤ 1))

-- `disconnect_additional` takes exactly the given port away, from a socket that has it and at least
-- one more, so that the socket stays connected; in every other case it raises ValueError.
pub disconnect_additional-Disconnects :
    (port : ℕ) (s : ZeroQueuePub)
    → Distinct s.connected_ports
    → Disconnects port s (disconnect_additional port s)
unfolding disconnect_additional
disconnect_additional-Disconnects port s h = by_tests _ _ refl refl
  where
    by_tests :
        (present more : Bool)
        → contains port s.connected_ports ≡ present
        → ltb 1 (length s.connected_ports) ≡ more
        → Disconnects port s (
            if present
            then (if more
                then returned (record { connected_ports = remove_first port s.connected_ports })
                else raised value_error)
            else raised value_error)
    by_tests true true e f = (
      e,
      ground (arith, length-remove_first port s.connected_ports e),
      Distinct-remove_first port s.connected_ports h,
      λ m. contains-remove_first m port s.connected_ports h,
    )
    by_tests true false e f = (refl, inr (ground arith))
    by_tests false more e f = (refl, inl e)
