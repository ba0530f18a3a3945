-- ===== src/Cache/Singleflight.antt =====
-- domain/globalmail/singleflight.go: the calls of `Do` with one function each, move by move. A call
-- is named by its number, in the order in which the calls became leaders; `m` is the group's map.
use globalmail.Prelude.{
  set_at, and_then, and_then-some, get_elem?-append_place, get_elem?-set_at_place, ℕ, ◌≡◌, ◌++◌,
  refl, subst, arith, Bool, true, false, String, Option, none, some, List, [], ◌∷◌, length,
  get_elem?, string_eq, Option-cases, inl, inr,
}
use globalmail.Prelude.Dict.{
  Dict, lookup, insert, erase, lookup-insert, lookup-insert_self, lookup-erase,
}

-- The leader's call: before `fn` has returned, between `wg.Done` and the delete, and at its end.
pub data FlightStage (R : Type 0) : Type 0 where
  flying : FlightStage R
  landed left : R → FlightStage R

pub record FlightCall (R : Type 0) : Type 0 where
  pub key : String
  pub stage : FlightStage R

pub record FlightGroup (R : Type 0) : Type 0 where
  pub m : Dict String ℕ
  pub flights : List (FlightCall R)

module _ {R : Type 0} where
  -- The first critical section of `Do`: the number of the call to wait for, or a new call.
  unfoldable pub join : String → FlightGroup R → Option ℕ × FlightGroup R
  join key g = elim (lookup key g.m) [
    | some c ↦ (some c, g)
    | none ↦ (
      none,
      record {
        m = insert key (length g.flights) g.m;
        flights = g.flights ++ record { key = key; stage = flying } ∷ [];
      },
    )
  ]

  -- `fn` returns and `wg.Done` lets the waiting calls go on.
  unfoldable pub land : ℕ → R → FlightGroup R → Option (FlightGroup R)
  land c r g = and_then (get_elem? g.flights c) λ call. elim call.stage [
    | flying ↦ some (record g { flights = set_at c (record call { stage = landed r }) g.flights })
    | _ ↦ none
  ]

  -- The second critical section: the key is taken out of the map.
  unfoldable pub leave : ℕ → FlightGroup R → Option (FlightGroup R)
  leave c g = and_then (get_elem? g.flights c) λ call. elim call.stage [
    | landed r ↦ some (record {
      m = erase call.key g.m;
      flights = set_at c (record call { stage = left r }) g.flights;
    })
    | _ ↦ none
  ]

-- A run of the group.
pub data FlightMove (R : Type 0) : Type 0 where
  joins : String → FlightMove R
  lands : ℕ → R → FlightMove R
  leaves : ℕ → FlightMove R

abbrev pub empty_group : {R : Type 0} → FlightGroup R
empty_group = record { m = []; flights = [] }

module _ {R : Type 0} where
  unfoldable pub fly : FlightMove R → FlightGroup R → Option (FlightGroup R)
  unfolding join land leave
  fly (joins key) g = some (join key g).1
  fly (lands c r) g = land c r g
  fly (leaves c) g = leave c g

  unfoldable pub fly_all : List (FlightMove R) → FlightGroup R → Option (FlightGroup R)
  unfolding fly
  fly_all [] g = some g
  fly_all (x ∷ xs) g = and_then (fly x g) (fly_all xs)

  abbrev pub is_left : FlightStage R → Bool
  is_left (left r) = true
  is_left s = false

  -- A call that has not taken its key out stands under it in the map.
  abbrev IsMapped : FlightGroup R → Type 0
  IsMapped g =
      (c : ℕ) (call : FlightCall R)
      → get_elem? g.flights c ≡ some call
      → is_left call.stage ≡ false
      → lookup call.key g.m ≡ some c

  join-IsMapped : (key : String) (g : FlightGroup R) → IsMapped g → IsMapped (join key g).1
  unfolding join
  join-IsMapped key g w c call e n = elim (Option-cases (lookup key g.m)) [
    | inr (d, z) ↦ ground (arith, w c call, e, n, z)
    | inl z ↦ fresh z
  ]
    where
      fresh : lookup key g.m ≡ none → lookup call.key (join key g).1.m ≡ some c
      fresh z =
          let b : FlightCall R = record { key = key; stage = flying } in
          let f : get_elem? (g.flights ++ b ∷ []) c ≡ some call = ground (arith, e, z) in
          elim (get_elem?-append_place c b call g.flights f) [
            | inl p ↦
                let l = lookup-insert_self key (length g.flights) g.m in ground (arith, z, p, l)
            | inr h ↦
                let l = w c call h n in
                ground (
                  arith,
                  z,
                  l,
                  lookup-insert call.key key (length g.flights) g.m,
                  string_eq.beq_iff key call.key,
                )
          ]

  -- A call changes its stage, and is still to leave if it was.
  land-IsMapped :
      (c : ℕ) (r : R) (g k : FlightGroup R) → IsMapped g → land c r g ≡ some k → IsMapped k
  unfolding land
  land-IsMapped c r g k w h d call e n =
      let go : FlightCall R → Option (FlightGroup R) = λ a. elim a.stage [
        | flying ↦ some (record g { flights = set_at c (record a { stage = landed r }) g.flights })
        | _ ↦ none
      ] in
      let (a, f, f') = and_then-some (get_elem? g.flights c) go k h in by_stage a a.stage refl f f'
    where
      by_stage :
          (a : FlightCall R) (s : FlightStage R)
          → a.stage ≡ s
          → get_elem? g.flights c ≡ some a
          → (elim a.stage [
            | flying ↦
                some (record g { flights = set_at c (record a { stage = landed r }) g.flights })
            | _ ↦ none
          ])
            ≡ some k
          → lookup call.key k.m ≡ some d
      by_stage a (landed x) z f f' = absurd (ground (arith, z, f'))
      by_stage a (left x) z f f' = absurd (ground (arith, z, f'))
      by_stage a flying z f f' =
          let b : FlightCall R = record a { stage = landed r } in
          let e' : get_elem? (set_at c b g.flights) d ≡ some call = ground (arith, e, z, f') in
          elim (get_elem?-set_at_place c d b call g.flights e') [
            | inl p ↦ let l = w c a f (ground (arith, z)) in ground (arith, p, l, z, f')
            | inr p ↦ let l = w d call p.1 n in ground (arith, l, z, f')
          ]

  leave-IsMapped : (c : ℕ) (g k : FlightGroup R) → IsMapped g → leave c g ≡ some k → IsMapped k
  unfolding leave
  leave-IsMapped c g k w h d call e n =
      let after : FlightCall R → R → FlightGroup R = λ a r. record {
        m = erase a.key g.m;
        flights = set_at c (record a { stage = left r }) g.flights;
      } in
      let go : FlightCall R → Option (FlightGroup R) =
        λ a. elim a.stage [ landed r ↦ some (after a r) | _ ↦ none ] in
      let (a, f, f') = and_then-some (get_elem? g.flights c) go k h in by_stage a a.stage refl f f'
    where
      gone : FlightCall R → R → FlightGroup R
      gone a r = record {
        m = erase a.key g.m;
        flights = set_at c (record a { stage = left r }) g.flights;
      }

      by_stage :
          (a : FlightCall R) (s : FlightStage R)
          → a.stage ≡ s
          → get_elem? g.flights c ≡ some a
          → (elim a.stage [ landed r ↦ some (gone a r) | _ ↦ none ]) ≡ some k
          → lookup call.key k.m ≡ some d
      by_stage a flying z f f' = absurd (ground (arith, z, f'))
      by_stage a (left x) z f f' = absurd (ground (arith, z, f'))
      by_stage a (landed r) z f f' =
          let b : FlightCall R = record a { stage = left r } in
          let k' : gone a r ≡ k = ground (arith, z, f') in
          let e' : get_elem? (set_at c b g.flights) d ≡ some call = ground (arith, e, k') in
          elim (get_elem?-set_at_place c d b call g.flights e') [
            | inl p ↦ absurd (ground (arith, p, n))
            | inr p ↦
                let l = w d call p.1 n in
                let own = w c a f (ground (arith, z)) in
                ground (
                  arith,
                  p,
                  l,
                  own,
                  k',
                  lookup-erase call.key a.key g.m,
                  string_eq.beq_iff a.key call.key,
                )
          ]

  fly-IsMapped :
      (x : FlightMove R) (g k : FlightGroup R) → IsMapped g → fly x g ≡ some k → IsMapped k
  unfolding fly
  fly-IsMapped (joins key) g k w h =
      let f : (join key g).1 ≡ k = ground (arith, h) in subst IsMapped f (join-IsMapped key g w)
  fly-IsMapped (lands c r) g k w h = land-IsMapped c r g k w h
  fly-IsMapped (leaves c) g k w h = leave-IsMapped c g k w h

  fly_all-IsMapped :
      (xs : List (FlightMove R)) (g k : FlightGroup R)
      → IsMapped g
      → fly_all xs g ≡ some k
      → IsMapped k
  unfolding fly_all
  fly_all-IsMapped [] g k w h = let f : g ≡ k = ground (arith, h) in subst IsMapped f w
  fly_all-IsMapped (x ∷ xs) g k w h =
      let (t, e, f) = and_then-some (fly x g) (fly_all xs) k h in
      fly_all-IsMapped xs t k (fly-IsMapped x g t w e) f

  empty-IsMapped : IsMapped empty_group
  empty-IsMapped c call e n = absurd (ground (arith, e))

  -- Whatever calls of `Do` come in and in whatever order they go on: there is never more than one
  -- function at work for a key. Of two calls with the same key that have not yet taken it out of
  -- the map, both are the same.
  pub fly_all-one :
      (xs : List (FlightMove R)) (g : FlightGroup R) (c d : ℕ) (a b : FlightCall R)
      → fly_all xs empty_group ≡ some g
      → get_elem? g.flights c ≡ some a
      → get_elem? g.flights d ≡ some b
      → a.key ≡ b.key
      → is_left a.stage ≡ false
      → is_left b.stage ≡ false
      → c ≡ d
  fly_all-one xs g c d a b h e f same na nb =
      let w = fly_all-IsMapped xs empty_group g empty-IsMapped h in
      ground (arith, w c a e na, w d b f nb, same)
