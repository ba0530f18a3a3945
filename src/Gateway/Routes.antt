-- ===== src/Gateway/Routes.antt =====
-- app/gatewaysrv/router.go: the instance that a user's requests go to.
use globalmail.Prelude.{
  ℕ, zero, suc, ◌≡◌, ◌*◌, ◌≤◌, ◌<◌, inl, inr, refl, String, Bool, true, false, some, List, [], ◌∷◌,
  ◌++◌, length, get_elem?, In, In-append, In-append_left, In-append_right, ok, In-sort, sort-In,
  ltb, ◌==◌, string_eq, nat_eq, arith, if◌then◌else◌, ==_cases, Bool-cases, subst,
}
use globalmail.Prelude.Int.{ℤ, pos, wrap64, positive_or_pos, positive_or}
use globalmail.Prelude.Dict.{lookup, insert, lookup-insert}
use globalmail.Gateway.Ring.{
  PlayerServerInstance, ConsistentHashRouter, replicas, div_100, search, add_replicas, add_instance,
  add_instances, update, node_at, route_uid,
}

if-cases :
    {A : Type 0} (P : A → Type 0) {x y : A} (c : Bool)
    → (c ≡ true → P x)
    → (c ≡ false → P y)
    → P (if c then x else y)
if-cases P true f g = f refl
if-cases P false f g = g refl

-- Every hash of the ring leads to an instance with the property.
abbrev Placed : (PlayerServerInstance → Type 0) → ConsistentHashRouter → Type 0
Placed P r = (h : ℕ) → In h r.ring → (i : PlayerServerInstance) × (lookup h r.nodes ≡ some i) × P i

get_elem-In : (xs : List ℕ) (i : ℕ) → i < length xs → (x : ℕ) × (get_elem? xs i ≡ some x) × In x xs
get_elem-In [] i h = absurd (omega (arith, h))
get_elem-In (x ∷ xs) zero h = (x, refl, inl refl)
get_elem-In (x ∷ xs) (suc i) h =
    let (y, e, m) = get_elem-In xs i (omega (arith, h)) in (y, e, inr m)

search-le : (hash : ℕ) (hs : List ℕ) → search hash hs ≤ length hs
unfolding search
search-le hash [] = omega arith
search-le hash (h ∷ hs) = ground (arith, search-le hash hs)

-- An index inside of the ring leads to an instance with the property.
node_at-Placed :
    (P : PlayerServerInstance → Type 0) (r : ConsistentHashRouter) (i : ℕ)
    → Placed P r
    → i < length r.ring
    → P (node_at r i)
unfolding node_at
node_at-Placed P r i w inside =
    let (h, e, m) = get_elem-In r.ring i inside in
    let (x, l, p) = w h m in subst P (ground (arith, e, l)) p

-- An instance of the list that has an id.
abbrev pub IsNamed : List PlayerServerInstance → PlayerServerInstance → Type 0
IsNamed xs x = In x xs × ((x.instance_id == "") ≡ false)

ring_index :
    (r : ConsistentHashRouter) (hash : ℕ)
    → (length r.ring == 0) ≡ false
    → (if search hash r.ring == length r.ring then 0 else search hash r.ring) < length r.ring
ring_index r hash n = ground (arith, search-le hash r.ring)

length_pos : {A : Type 0} (a : A) (xs : List A) → In a xs → (length xs == 0) ≡ false
length_pos a [] m = absurd (m tt)
length_pos a (x ∷ xs) m = ground arith

module _ (virtual_hash : String → ℕ → ℕ) (uid_hash : ℤ → ℕ) where
  add_replicas-Placed :
      (P : PlayerServerInstance → Type 0) (x : PlayerServerInstance) (i left : ℕ)
      (r : ConsistentHashRouter)
      → P x
      → Placed P r
      → Placed P (add_replicas virtual_hash uid_hash x i left r)
  unfolding add_replicas
  add_replicas-Placed P x i zero r p w = w
  add_replicas-Placed P x i (suc left) r p w =
      let hash = virtual_hash x.instance_id i in
      add_replicas-Placed P x (suc i) left
        (record r { ring = r.ring ++ hash ∷ []; nodes = insert hash x r.nodes }) p
        (λ h m.
          let old = lookup-insert h hash x r.nodes in
          elim (==_cases hash h) [
            | inl (e, b) ↦ (x, ground (arith, old, b), p)
            | inr (n, b) ↦ elim (In-append h r.ring (hash ∷ []) m) [
              | inl there ↦ let (y, l, q) = w h there in (y, ground (arith, old, b, l), q)
              | inr here ↦ absurd (ground (arith, here, n))
            ]
          ])

  add_replicas-In :
      (h : ℕ) (x : PlayerServerInstance) (i left : ℕ) (r : ConsistentHashRouter)
      → In h r.ring
      → In h (add_replicas virtual_hash uid_hash x i left r).ring
  unfolding add_replicas
  add_replicas-In h x i zero r m = m
  add_replicas-In h x i (suc left) r m =
      let hash = virtual_hash x.instance_id i in
      add_replicas-In h x (suc i) left
        (record r { ring = r.ring ++ hash ∷ []; nodes = insert hash x r.nodes })
        (In-append_left h r.ring (hash ∷ []) m)

  -- The first replica of an instance is on the ring.
  add_replicas-first :
      (x : PlayerServerInstance) (left : ℕ) (r : ConsistentHashRouter)
      → 0 < left
      → In (virtual_hash x.instance_id 0) (add_replicas virtual_hash uid_hash x 0 left r).ring
  unfolding add_replicas
  add_replicas-first x zero r some_left = absurd (omega (arith, some_left))
  add_replicas-first x (suc left) r some_left =
      let hash = virtual_hash x.instance_id 0 in
      add_replicas-In hash x 1 left
        (record r { ring = r.ring ++ hash ∷ []; nodes = insert hash x r.nodes })
        (In-append_right hash r.ring (hash ∷ []) (inl refl))

  add_instance-Placed :
      (P : PlayerServerInstance → Type 0) (x : PlayerServerInstance) (r : ConsistentHashRouter)
      → ((x.instance_id == "") ≡ false → P x)
      → Placed P r
      → Placed P (add_instance virtual_hash uid_hash x r)
  unfolding add_instance
  add_instance-Placed P x r p w =
      if-cases (Placed P) (x.instance_id == "") (λ t. w)
        (λ f. add_replicas-Placed P x 0 (replicas r.virtual_nodes x.weight) r (p f) w)

  add_instances-Placed :
      (P : PlayerServerInstance → Type 0) (xs : List PlayerServerInstance)
      (r : ConsistentHashRouter)
      → ((x : PlayerServerInstance) → IsNamed xs x → P x)
      → Placed P r
      → Placed P (add_instances virtual_hash uid_hash xs r)
  unfolding add_instances
  add_instances-Placed P [] r named w = w
  add_instances-Placed P (x ∷ xs) r named w =
      add_instances-Placed P xs (add_instance virtual_hash uid_hash x r)
        (λ y m. named y (inr m.0, m.1)) (add_instance-Placed P x r (λ f. named x (inl refl, f)) w)

  add_instance-In :
      (h : ℕ) (x : PlayerServerInstance) (r : ConsistentHashRouter)
      → In h r.ring
      → In h (add_instance virtual_hash uid_hash x r).ring
  unfolding add_instance
  add_instance-In h x r m =
      if-cases (λ (q : ConsistentHashRouter). In h q.ring) (x.instance_id == "") (λ t. m)
        (λ f. add_replicas-In h x 0 (replicas r.virtual_nodes x.weight) r m)

  add_instances-In :
      (h : ℕ) (xs : List PlayerServerInstance) (r : ConsistentHashRouter)
      → In h r.ring
      → In h (add_instances virtual_hash uid_hash xs r).ring
  unfolding add_instances
  add_instances-In h [] r m = m
  add_instances-In h (x ∷ xs) r m =
      add_instances-In h xs (add_instance virtual_hash uid_hash x r) (add_instance-In h x r m)

  -- Every named instance has its first replica on the ring.
  add_instance-first :
      (x : PlayerServerInstance) (r : ConsistentHashRouter)
      → (x.instance_id == "") ≡ false
      → In (virtual_hash x.instance_id 0) (add_instance virtual_hash uid_hash x r).ring
  unfolding add_instance replicas
  add_instance-first x r f =
      if-cases (λ (q : ConsistentHashRouter). In (virtual_hash x.instance_id 0) q.ring)
        (x.instance_id == "") (λ t. absurd (cc (t, f)))
        (λ g. add_replicas-first x (replicas r.virtual_nodes x.weight) r (
          positive_or_pos (div_100 (wrap64 (pos (r.virtual_nodes * positive_or x.weight 100)))) 1
            (omega arith)))

  add_instances-first :
      (x : PlayerServerInstance) (xs : List PlayerServerInstance) (r : ConsistentHashRouter)
      → IsNamed xs x
      → In (virtual_hash x.instance_id 0) (add_instances virtual_hash uid_hash xs r).ring
  unfolding add_instances
  add_instances-first x [] r n = absurd (n.0 tt)
  add_instances-first x (y ∷ ys) r (inl e, f) =
      add_instances-In (virtual_hash x.instance_id 0) ys (add_instance virtual_hash uid_hash y r) (
        subst (λ z. In (virtual_hash x.instance_id 0) (add_instance virtual_hash uid_hash z r).ring)
          e (add_instance-first x r f))
  add_instances-first x (y ∷ ys) r (inr m, f) =
      add_instances-first x ys (add_instance virtual_hash uid_hash y r) (m, f)

  update-Placed :
      (xs : List PlayerServerInstance) (r : ConsistentHashRouter)
      → Placed (IsNamed xs) (update virtual_hash uid_hash xs r)
  unfolding update
  update-Placed xs r h m =
      let empty = record r { ring = []; nodes = [] } in
      add_instances-Placed (IsNamed xs) xs empty (λ x n. n) (λ j none_there. absurd (none_there tt))
        h (In-sort ltb h (add_instances virtual_hash uid_hash xs empty).ring m)

  update-first :
      (xs : List PlayerServerInstance) (r : ConsistentHashRouter) (x : PlayerServerInstance)
      → IsNamed xs x
      → In (virtual_hash x.instance_id 0) (update virtual_hash uid_hash xs r).ring
  unfolding update
  update-first xs r x n =
      let empty = record r { ring = []; nodes = [] } in
      sort-In ltb (virtual_hash x.instance_id 0) (add_instances virtual_hash uid_hash xs empty).ring
        (add_instances-first x xs empty n)

  -- After an update a user is only sent to an instance of the list that has an id: the hash that
  -- is found on the ring is never missing in the map of the nodes.
  pub route_uid-IsNamed :
      (xs : List PlayerServerInstance) (r : ConsistentHashRouter) (uid : ℤ)
      (x : PlayerServerInstance)
      → route_uid virtual_hash uid_hash (update virtual_hash uid_hash xs r) uid ≡ ok x
      → IsNamed xs x
  unfolding route_uid
  route_uid-IsNamed xs r uid x h =
      let u = update virtual_hash uid_hash xs r in
      let i = search (uid_hash uid) u.ring in
      let p =
        node_at-Placed (IsNamed xs) u (if i == length u.ring then 0 else i) (update-Placed xs r) in
      elim (Bool-cases (length u.ring == 0)) [
        | inl empty ↦ absurd (ground (arith, empty, h))
        | inr n ↦ subst (IsNamed xs) (ground (arith, n, h)) (p (ring_index u (uid_hash uid) n))
      ]

  -- After an update with at least one instance that has an id, every user is sent somewhere.
  pub route_uid-total :
      (xs : List PlayerServerInstance) (r : ConsistentHashRouter) (uid : ℤ)
      (x : PlayerServerInstance)
      → IsNamed xs x
      → (y : PlayerServerInstance) × (route_uid virtual_hash uid_hash
            (update virtual_hash uid_hash xs r)
            uid
          ≡ ok y)
        × IsNamed xs y
  unfolding route_uid
  route_uid-total xs r uid x n =
      let u = update virtual_hash uid_hash xs r in
      let i = search (uid_hash uid) u.ring in
      let y = node_at u (if i == length u.ring then 0 else i) in
      let on_ring = update-first xs r x n in
      let goes : route_uid virtual_hash uid_hash u uid ≡ ok y =
        ground (arith, length_pos (virtual_hash x.instance_id 0) u.ring on_ring) in
      (y, goes, route_uid-IsNamed xs r uid y goes)
