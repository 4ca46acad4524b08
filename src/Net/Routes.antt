-- ===== src/Net/Routes.antt =====
-- The table of routes as a map from destinations and masks to gateways.
use myos.Base.{
  ℕ, ◌+◌, ◌≤◌, ◌<◌, ◌≡◌, ◌≢◌, refl, sym, ap, ◌∙◌, Bool, true, false, ◌&&◌, Option, none, some, leb,
  ◌==◌, update, arith, inl, inr, Bool-cases, ◌⊎◌,
}
use myos.Base.Search.{First, first_from-First}
use myos.Net.Tables.{Route, Tables, max_routes, is_route, add_found, route_add}

-- The gateway that the table gives for a destination and a mask: that of the first such route.
abbrev pub Gives : ℕ → ℕ → Tables → Option ℕ → Type 0
Gives d n t none = First (is_route d n t.routes) 0 t.route_count none
Gives d n t (some gateway) =
    (i : ℕ) × First (is_route d n t.routes) 0 t.route_count (some i)
    × ((t.routes i).gateway ≡ gateway)

-- What adding a route may do.
abbrev pub Added : Route → Tables → Option Tables → Type 0
Added r t none = (t.route_count ≡ max_routes) × Gives r.dest r.netmask t none
Added r t (some t') =
    Gives r.dest r.netmask t' (some r.gateway)
    × ((d n : ℕ) (o : Option ℕ) → ((d ≢ r.dest) ⊎ (n ≢ r.netmask)) → Gives d n t o → Gives d n t' o)
    × (t'.route_count ≤ max_routes)

First-cong :
    (test test' : ℕ → Bool) (lo hi : ℕ) (o : Option ℕ)
    → ((k : ℕ) → k < hi → test' k ≡ test k)
    → First test lo hi o
    → First test' lo hi o
First-cong test test' lo hi none same f = λ k a b. same k b ∙ f k a b
First-cong test test' lo hi (some i) same (hit, low, high, rest) =
    (same i high ∙ hit, low, high, λ k a b. same k (omega (arith, b, high)) ∙ rest k a b)

route_lem :
    (d n : ℕ) (routes : ℕ → Route) (i : ℕ)
    → is_route d n routes i ≡ true
    → ((routes i).dest ≡ d) × ((routes i).netmask ≡ n)
route_lem d n routes i h = (ground (arith, h), ground (arith, h))

is_other :
    (r : Route) (d n : ℕ)
    → ((d ≢ r.dest) ⊎ (n ≢ r.netmask))
    → ((r.dest == d) && (r.netmask == n)) ≡ false
is_other r d n (inl ne) = ground (arith, ne)
is_other r d n (inr ne) = ground (arith, ne)

module _ (r : Route) (t : Tables) (few : t.route_count ≤ max_routes) where
  -- A route that is there gets the new gateway.
  changed :
      (i : ℕ)
      → First (is_route r.dest r.netmask t.routes) 0 t.route_count (some i)
      → Added r t (add_found r (some i) t)
  changed i found = ((i, keep r.dest r.netmask (some i) found, self), others, few)
    where
      routes' : ℕ → Route
      routes' = update t.routes i (record (t.routes i) { gateway = r.gateway })

      self : (routes' i).gateway ≡ r.gateway
      self = let e : (i == i) ≡ true = ground arith in rw e refl

      keep :
          (d n : ℕ) (o : Option ℕ)
          → First (is_route d n t.routes) 0 t.route_count o
          → First (is_route d n routes') 0 t.route_count o
      keep d n o f =
          First-cong (is_route d n t.routes) (is_route d n routes') 0 t.route_count o
            (λ k h. same k) f
        where
          same : (k : ℕ) → is_route d n routes' k ≡ is_route d n t.routes k
          same k = elim (Bool-cases (k == i)) [
            | inl e ↦
                let here : k ≡ i = ground (arith, e) in rw e (ap (is_route d n t.routes) (sym here))
            | inr e ↦ rw e refl
          ]

      others :
          (d n : ℕ) (o : Option ℕ)
          → ((d ≢ r.dest) ⊎ (n ≢ r.netmask))
          → Gives d n t o
          → Gives d n (record t { routes = routes' }) o
      others d n none ne f = keep d n none f
      others d n (some gateway) ne (j, f, e) = (
        j,
        keep d n (some j) f,
        elim (Bool-cases (j == i)) [
          | inr z ↦ rw z e
          | inl z ↦
              let here : j ≡ i = ground (arith, z) in
              let (a, b) = route_lem r.dest r.netmask t.routes i (found.0) in
              let (a', b') = route_lem d n t.routes j (f.0) in
              absurd (
                apart ne (sym a' ∙ (ap (λ k. (t.routes k).dest) here ∙ a))
                  (sym b' ∙ (ap (λ k. (t.routes k).netmask) here ∙ b)))
        ],
      )
        where
          apart : ((d ≢ r.dest) ⊎ (n ≢ r.netmask)) → d ≡ r.dest → n ≡ r.netmask → ⊥
          apart (inl x) p q = x p
          apart (inr x) p q = x q

  -- A new route goes behind the others.
  appended :
      First (is_route r.dest r.netmask t.routes) 0 t.route_count none
      → t.route_count < max_routes
      → Added r t (
          some (record t {
            routes = update t.routes t.route_count r;
            route_count = t.route_count + 1;
          }))
  appended miss room = (
    (c, (here, omega arith, omega arith, λ k a b. below r.dest r.netmask k b ∙ miss k a b), self),
    others,
    omega (arith, room),
  )
    where
      c : ℕ
      c = t.route_count

      routes' : ℕ → Route
      routes' = update t.routes c r

      last : (d n : ℕ) → is_route d n routes' c ≡ ((r.dest == d) && (r.netmask == n))
      last d n = let e : (c == c) ≡ true = ground arith in rw e refl

      self : (routes' c).gateway ≡ r.gateway
      self = let e : (c == c) ≡ true = ground arith in rw e refl

      below : (d n k : ℕ) → k < c → is_route d n routes' k ≡ is_route d n t.routes k
      below d n k h = let e : (k == c) ≡ false = ground (arith, h) in rw e refl

      here : is_route r.dest r.netmask routes' c ≡ true
      here =
          let a : (r.dest == r.dest) ≡ true = ground arith in
          let b : (r.netmask == r.netmask) ≡ true = ground arith in
          last r.dest r.netmask ∙ rw (a, b) refl

      others :
          (d n : ℕ) (o : Option ℕ)
          → ((d ≢ r.dest) ⊎ (n ≢ r.netmask))
          → Gives d n t o
          → Gives d n (record t { routes = routes'; route_count = c + 1 }) o
      others d n none ne f = λ k a b. elim (Bool-cases (k == c)) [
        | inl e ↦
            let at : k ≡ c = ground (arith, e) in
            ap (is_route d n routes') at ∙ (last d n ∙ is_other r d n ne)
        | inr e ↦ let low : k < c = ground (arith, e, b) in below d n k low ∙ f k a low
      ]
      others d n (some gateway) ne (j, (hit, low, high, rest), e) = (
        j,
        (
          below d n j high ∙ hit,
          low,
          omega (arith, high),
          λ k a b. below d n k (omega (arith, b, high)) ∙ rest k a b,
        ),
        (let z : (j == c) ≡ false = ground (arith, high) in rw z e),
      )

  found-Added :
      (o : Option ℕ)
      → First (is_route r.dest r.netmask t.routes) 0 t.route_count o
      → Added r t (add_found r o t)
  found-Added (some i) f = changed i f
  found-Added none f = elim (Bool-cases (leb max_routes t.route_count)) [
    | inl e ↦ rw e (ground (arith, e, few), f)
    | inr e ↦ rw e (appended f (ground (arith, e)))
  ]

-- With at most 8 routes: `net_route_add` fails only where 8 routes are there and none of them has the
-- destination and the mask; otherwise the table gives the new gateway for them, gives what it gave
-- for every other pair, and has at most 8 routes.
pub route_add_lem :
    (r : Route) (t : Tables) → t.route_count ≤ max_routes → Added r t (route_add (some r) t)
unfolding route_add
route_add_lem r t few = found-Added r t few _ (
    first_from-First (is_route r.dest r.netmask t.routes) t.route_count 0 t.route_count
      (omega arith))
