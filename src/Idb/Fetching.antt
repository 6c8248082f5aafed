-- ===== src/Idb/Fetching.antt =====
-- packages/simgadget/src/idb/companionBinary.ts: `fetchToFile`, up to the body, which is told by its
-- checksum or its failure. What the network answers is told from outside.
pub mod Laws
use simgadget.Prelude.{
  ℕ, zero, suc, leb, ltb, ◌==◌, if◌then◌else◌, Bool, false, ◌&&◌, ◌||◌, [], ◌∷◌, Option, none, some,
}
use simgadget.Prelude.Text.{Text, text, text_eq, non_empty}
use simgadget.Prelude.Run.{Reply, value, throws, Run, done, after}

-- How a fetch fails: all are `CompanionDownloadError`s.
pub data Failure : Type 0 where
  invalid_url unsupported_protocol too_many_redirects unusable_location http_error : Failure
  broken : Failure

-- A response: its status, its `location` header, and what its body comes to.
pub record Response : Type 0 where
  pub status : ℕ
  pub location : Option Text
  pub body : Reply Failure Text

-- What `new URL` makes of a text, by its protocol, and of a location at a base; and what a request is
-- answered with, where it is answered at all.
pub record Network : Type 0 where
  pub protocol : Text → Option Text
  pub relative : Text → Text → Option Text
  pub request : Text → Reply Failure Response

pub data Act : Type 0 where
  requests : Text → Act

-- `parsed.protocol === "https:" || parsed.protocol === "http:"`
abbrev pub is_http : Option Text → Bool
is_http none = false
is_http (some protocol) = text_eq protocol (text "https:") || text_eq protocol (text "http:")

abbrev pub refused : Option Text → Failure
refused none = invalid_url
refused (some protocol) = unsupported_protocol

-- `status >= 300 && status < 400`, and the location
abbrev pub redirect : Response → Option Text
redirect r = elim r.location [
  | none ↦ none
  | some location ↦
      if leb 300 r.status && ltb r.status 400 && non_empty location then some location else none
]

abbrev pub received : Response → Reply Failure Text
received r = if r.status == 200 then r.body else throws http_error

module _ (w : Network) where
  -- `get`, by the redirects left.
  unfoldable pub fetch_from : ℕ → Text → Run Act Failure Text
  fetch_from zero target =
      if is_http (w.protocol target)
      then after (requests target ∷ []) (elim (w.request target) [
        | throws f ↦ done (throws f)
        | value response ↦ elim (redirect response) [
          | some location ↦ done (throws too_many_redirects)
          | none ↦ done (received response)
        ]
      ])
      else done (throws (refused (w.protocol target)))
  fetch_from (suc left) target =
      let follow : Text → Run Act Failure Text = λ next. fetch_from left next in
      if is_http (w.protocol target)
      then after (requests target ∷ []) (elim (w.request target) [
        | throws f ↦ done (throws f)
        | value response ↦ elim (redirect response) [
          | some location ↦ elim (w.relative location target) [
            | none ↦ done (throws unusable_location)
            | some next ↦ follow next
          ]
          | none ↦ done (received response)
        ]
      ])
      else done (throws (refused (w.protocol target)))

  -- `fetchToFile`, with `MAX_REDIRECTS`
  unfoldable pub fetch_to_file : Text → Run Act Failure Text
  unfolding fetch_from
  fetch_to_file url = fetch_from 5 url
