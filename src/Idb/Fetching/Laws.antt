-- ===== src/Idb/Fetching/Laws.antt =====
-- How far a fetch goes.
use simgadget.Prelude.{
  ℕ, zero, suc, ◌≤◌, ◌==◌, ◌≡◌, inl, inr, true, List, [], ◌∷◌, All, length, arith, Bool-cases,
  Option-cases,
}
use simgadget.Prelude.Text.{Text}
use simgadget.Prelude.Run.{Reply, Reply-cases, value, throws}
use simgadget.Idb.Fetching.{
  Failure, Response, Network, Act, requests, is_http, redirect, received, fetch_from, fetch_to_file,
}

module _ (w : Network) where
  -- A request goes over HTTP or HTTPS.
  abbrev pub Web : Act → Type 0
  Web (requests target) = is_http (w.protocol target) ≡ true

  -- Where a checksum comes from: a response with status 200 to a request that was made.
  abbrev pub Told : Reply Failure Text → Type 0
  Told (throws f) = Unit
  Told (value sum) =
      (target : Text) × (response : Response) × (w.request target ≡ value response)
      × (response.status ≡ 200)
      × (response.body ≡ value sum)

  pub record Fetched (left : ℕ) (acts : List Act) (ended : Reply Failure Text) : Type 0 where
    pub few : length acts ≤ suc left
    pub web : All Web acts
    pub told : Told ended

  received-Told : (target : Text) (r : Response) → w.request target ≡ value r → Told (received r)
  received-Told target r asked = elim (Bool-cases (r.status == 200)) [
    | inr bad ↦ rw (bad) tt
    | inl good ↦ rw (good) (elim (Reply-cases r.body) [
      | inr (f, broken) ↦ rw (broken) tt
      | inl (sum, whole) ↦ rw (whole) (target, r, asked, ground arith, whole)
    ])
  ]

  refused-Fetched : (left : ℕ) (f : Failure) → Fetched left [] (throws f)
  refused-Fetched left f = record { few = omega arith; web = tt; told = tt }

  once-Fetched :
      (left : ℕ) (target : Text) (ended : Reply Failure Text)
      → is_http (w.protocol target) ≡ true
      → Told ended
      → Fetched left (requests target ∷ []) ended
  once-Fetched left target ended web told = record {
    few = omega arith;
    web = (web, tt);
    told = told;
  }

  from-Fetched :
      (left : ℕ) (target : Text)
      → Fetched left (fetch_from w left target).acts (fetch_from w left target).ended
  unfolding fetch_from
  from-Fetched zero target = elim (Bool-cases (is_http (w.protocol target))) [
    | inr other ↦ rw (fetch_from, other) (refused-Fetched zero _)
    | inl web ↦ elim (Reply-cases (w.request target)) [
      | inr (f, failed) ↦ rw (fetch_from, web, failed) (once-Fetched zero target _ web tt)
      | inl (r, asked) ↦ elim (Option-cases (redirect r)) [
        | inr (location, moved) ↦
            rw (fetch_from, web, asked, moved) (once-Fetched zero target _ web tt)
        | inl here ↦
            rw (fetch_from, web, asked, here)
              (once-Fetched zero target _ web (received-Told target r asked))
      ]
    ]
  ]
  from-Fetched (suc left) target = elim (Bool-cases (is_http (w.protocol target))) [
    | inr other ↦ rw (fetch_from, other) (refused-Fetched (suc left) _)
    | inl web ↦ elim (Reply-cases (w.request target)) [
      | inr (f, failed) ↦ rw (fetch_from, web, failed) (once-Fetched (suc left) target _ web tt)
      | inl (r, asked) ↦ elim (Option-cases (redirect r)) [
        | inl here ↦
            rw (fetch_from, web, asked, here)
              (once-Fetched (suc left) target _ web (received-Told target r asked))
        | inr (location, moved) ↦ elim (Option-cases (w.relative location target)) [
          | inl unusable ↦
              rw (fetch_from, web, asked, moved, unusable) (once-Fetched (suc left) target _ web tt)
          | inr (next, at) ↦
              let rest = from-Fetched left next in
              rw (fetch_from, web, asked, moved, at)
                (record { few = omega (arith, rest.few); web = (web, rest.web); told = rest.told })
        ]
      ]
    ]
  ]

  -- A fetch makes at most six requests, each over HTTP or HTTPS, whatever it is redirected to. A
  -- checksum that it returns is that of the body of a response with status 200.
  pub fetch_to_file-Fetched :
      (url : Text) → Fetched 5 (fetch_to_file w url).acts (fetch_to_file w url).ended
  unfolding fetch_to_file
  fetch_to_file-Fetched url = from-Fetched 5 url
