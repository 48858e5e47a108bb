-- ===== src/Scripts/RestProxy.antt =====
-- scripts/rest_prefix_proxy.py: the path and the headers that are passed on, and those that come
-- back. Sockets and the reading of the body are parameters, and so is `str.lower` of header names.
pub mod Paths
pub mod Headers
use murray_context_ledger_mc.Base.{
  ℕ, zero, suc, String, ◌<>◌, ◌==◌, Bool, true, false, not, ◌||◌, Option, none, some, List, [], ◌∷◌,
  ◌++◌, keep, contains, size, prefix_of, decimal, if◌then◌else◌,
}
use murray_context_ledger_mc.Base.Int.{ℤ, pos, negsuc}
use murray_context_ledger_mc.Effect.{Result, ok, err}

abbrev pub prefix : String
prefix = "/rest/v1"

-- `s[n:]`
abbrev pub from : ℕ → String → String
from zero s = s
from (suc n) String.[] = ""
from (suc n) (String.◌∷◌ c s) = from n s

-- `s.startswith(p)`
abbrev pub starts_with : String → String → Bool
starts_with s p = prefix_of (size p) s == p

-- `_upstream_path`
unfoldable pub upstream_path : String → String
upstream_path path =
    if path == prefix || path == prefix <> "/"
    then "/"
    else if starts_with path (prefix <> "/")
    then from (size prefix) path
    else if starts_with path (prefix <> "?")
    then "/" <> from (size prefix) path
    else path

abbrev pub hop_by_hop : List String
hop_by_hop =
    "connection" ∷ "keep-alive" ∷ "proxy-authenticate" ∷ "proxy-authorization" ∷ "te" ∷ "trailers"
    ∷ "transfer-encoding" ∷ "upgrade" ∷ "host" ∷ []

abbrev pub Header : Type 0
Header = String × String

pub record Received : Type 0 where
  pub command : String
  pub path : String
  pub headers : List Header

pub record Response : Type 0 where
  pub status : ℕ
  pub headers : List Header
  pub payload : String

-- `d[k] = v`: a key that is there keeps its place.
unfoldable pub put : String → String → List Header → List Header
put k v [] = (k, v) ∷ []
put k v ((name, value) ∷ d) =
    let rest = put k v d in if name == k then (name, v) ∷ d else (name, value) ∷ rest

-- `{k: v for k, v in items}`, onto the entries so far.
unfoldable pub dict_onto : List Header → List Header → List Header
unfolding put
dict_onto d [] = d
dict_onto d ((k, v) ∷ items) = dict_onto (put k v d) items

module _ (lower : String → String) where
  -- The comprehension over `self.headers.items()`.
  unfoldable pub forwarded : List Header → List Header
  unfolding dict_onto
  forwarded items = dict_onto [] (keep (λ h. not (contains hop_by_hop (lower h.0))) items)

  -- The headers that the loop and the line after it send: those of the upstream that pass, then the
  -- length of the payload. (`send_response` puts its own Server and Date before them.)
  unfoldable pub answered : ℕ → List Header → List Header
  answered length headers =
      keep (λ h. not (contains hop_by_hop (lower h.0) || lower h.0 == "content-length")) headers
      ++ (("Content-Length", decimal length) ∷ [])

  -- `self.headers.get("Content-Length")`, whatever the case of the name.
  unfoldable pub content_length : List Header → Option String
  content_length [] = none
  content_length ((name, value) ∷ headers) =
      let rest = content_length headers in
      if lower name == "content-length" then some value else rest

  -- `int(… or 0)`, where `int_of` reads the text or raises.
  body_length : (String → Result ℤ) → Option String → Result ℤ
  body_length int_of none = ok (pos 0)
  body_length int_of (some value) = if value == "" then ok (pos 0) else int_of value

  -- `self.rfile.read(length) if length else None`
  body : (ℤ → String) → ℤ → Option String
  body read (pos zero) = none
  body read (pos (suc n)) = some (read (pos (suc n)))
  body read (negsuc n) = some (read (negsuc n))

  module _ (int_of : String → Result ℤ) (read : ℤ → String) (bytes : String → ℕ)
      (request : String → String → Option String → List Header → Result Response) where
    answer_with : Result Response → Result Response
    unfolding answered
    answer_with (err e) = err e
    answer_with (ok r) = ok (record r { headers = answered (bytes r.payload) r.headers })

    forward_length : Received → Result ℤ → Result Response
    unfolding answer_with upstream_path forwarded body
    forward_length r (err e) = err e
    forward_length r (ok n) =
        answer_with (request r.command (upstream_path r.path) (body read n) (forwarded r.headers))

    -- `_forward`, which is every `do_…` method.
    unfoldable pub forward : Received → Result Response
    unfolding forward_length body_length content_length
    forward r = forward_length r (body_length int_of (content_length r.headers))
