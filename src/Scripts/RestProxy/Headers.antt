-- ===== src/Scripts/RestProxy/Headers.antt =====
-- What the proxy lets through, in both directions.
use murray_context_ledger_mc.Base.{
  ◌≡◌, refl, ap, ◌∙◌, ℕ, String, ◌==◌, Bool, true, false, not, ◌||◌, Option, List, [], ◌∷◌, ◌++◌,
  keep, contains, decimal, Bool-cases, inl, inr,
}
use murray_context_ledger_mc.Base.Int.{ℤ}
use murray_context_ledger_mc.Effect.{Result, ok, err}
use murray_context_ledger_mc.Scripts.RestProxy.Paths.{behind, upstream_path-behind}
use murray_context_ledger_mc.Scripts.RestProxy.{
  prefix, hop_by_hop, Header, Received, Response, forwarded, put, dict_onto, answered,
  content_length, body_length, body, answer_with, forward_length, forward, upstream_path,
}

module _ {A : Type 0} where
  keep-append : (p : A → Bool) (xs ys : List A) → keep p (xs ++ ys) ≡ keep p xs ++ keep p ys
  keep-append p [] ys = refl
  keep-append p (x ∷ xs) ys = elim (Bool-cases (p x)) [
    | inl e ↦ rw (e, keep-append p xs ys) refl
    | inr e ↦ rw (e, keep-append p xs ys) refl
  ]

  -- What was left out is not there.
  keep-left_out :
      (p q : A → Bool) (xs : List A)
      → ((x : A) → p x ≡ true → q x ≡ false)
      → keep p (keep q xs) ≡ []
  keep-left_out p q [] h = refl
  keep-left_out p q (x ∷ xs) h = elim (Bool-cases (q x)) [
    | inr e ↦ rw e (keep-left_out p q xs h)
    | inl e ↦ elim (Bool-cases (p x)) [
      | inr d ↦ rw e (rw d (keep-left_out p q xs h))
      | inl d ↦ absurd (both (q x) e (h x d))
    ]
  ]
    where
      both : (b : Bool) → b ≡ true → b ≡ false → ⊥
      both b e d = cc

  keep-none :
      (p : A → Bool) (x : A) (xs : List A) → keep p (x ∷ xs) ≡ [] → (p x ≡ false) × (keep p xs ≡ [])
  keep-none p x xs h = elim (Bool-cases (p x)) [
    | inl e ↦ absurd (cons_nil (keep p xs) (rw (← h, e) refl))
    | inr e ↦ (e, rw (← h, e) refl)
  ]
    where
      cons_nil : (ys : List A) → x ∷ ys ≡ [] → ⊥
      cons_nil ys d = cc

module _ (lower : String → String) (named : lower "Content-Length" ≡ "content-length") where
  abbrev pub is_hop : Header → Bool
  is_hop h = contains hop_by_hop (lower h.0)

  abbrev pub is_length : Header → Bool
  is_length h = lower h.0 == "content-length"

  abbrev passes : Header → Bool
  passes h = not (is_hop h || is_length h)

  length_header :
      (n : ℕ)
      → keep is_length (("Content-Length", decimal n) ∷ []) ≡ ("Content-Length", decimal n) ∷ []
  length_header n = rw named refl

  no_hop_header : (n : ℕ) → keep is_hop (("Content-Length", decimal n) ∷ []) ≡ []
  no_hop_header n = rw named refl

  or_left : (b c : Bool) → b ≡ true → not (b || c) ≡ false
  or_left true c h = refl
  or_left false c h = cc

  or_right : (b c : Bool) → c ≡ true → not (b || c) ≡ false
  or_right true c h = refl
  or_right false true h = refl
  or_right false false h = cc

  -- One header with the length, and none that holds for one connection only.
  abbrev pub WellHeaded : ℕ → List Header → Type 0
  WellHeaded n headers =
      (keep is_length headers ≡ ("Content-Length", decimal n) ∷ []) × (keep is_hop headers ≡ [])

  answered-WellHeaded : (n : ℕ) (headers : List Header) → WellHeaded n (answered lower n headers)
  unfolding answered
  answered-WellHeaded n headers = (
    keep-append is_length (keep passes headers) (("Content-Length", decimal n) ∷ [])
        ∙ ap (λ hs. hs ++ keep is_length (("Content-Length", decimal n) ∷ []))
            (keep-left_out is_length passes headers (λ h e. or_right (is_hop h) (is_length h) e))
        ∙ length_header n,
    keep-append is_hop (keep passes headers) (("Content-Length", decimal n) ∷ [])
        ∙ ap (λ hs. hs ++ keep is_hop (("Content-Length", decimal n) ∷ []))
            (keep-left_out is_hop passes headers (λ h e. or_left (is_hop h) (is_length h) e))
        ∙ no_hop_header n,
  )

  -- A dict holds no hop-by-hop name that was put into it.
  put_lem :
      (k v : String) (d : List Header)
      → is_hop (k, v) ≡ false
      → keep is_hop d ≡ []
      → keep is_hop (put k v d) ≡ []
  unfolding put
  put_lem k v [] h e = rw h refl
  put_lem k v ((name, value) ∷ d) h e =
      let none_here = keep-none is_hop (name, value) d e in
      elim (Bool-cases (name == k)) [
        | inl same ↦ rw (same, none_here.0) none_here.1
        | inr other ↦ rw (other, none_here.0) (put_lem k v d h none_here.1)
      ]

  dict_onto_lem :
      (d items : List Header)
      → keep is_hop d ≡ []
      → keep is_hop items ≡ []
      → keep is_hop (dict_onto d items) ≡ []
  unfolding dict_onto
  dict_onto_lem d [] e h = e
  dict_onto_lem d ((k, v) ∷ items) e h =
      let none_here = keep-none is_hop (k, v) items h in
      dict_onto_lem (put k v d) items (put_lem k v d none_here.0 e) none_here.1

  forwarded_lem : (headers : List Header) → keep is_hop (forwarded lower headers) ≡ []
  unfolding forwarded
  forwarded_lem headers =
      dict_onto_lem [] (keep (λ h. not (is_hop h)) headers) refl
        (keep-left_out is_hop (λ h. not (is_hop h)) headers (λ h e. ap not e))

  module _ (int_of : String → Result ℤ) (read : ℤ → String) (bytes : String → ℕ)
      (request : String → String → Option String → List Header → Result Response) where
    -- What was asked of the upstream, and what it answered.
    pub record Passed (r : Received) (answer : Response) : Type 0 where
      pub sent : Option String
      pub headers : List Header
      pub upstream : Response
      pub asked : request r.command (behind prefix r.path) sent headers ≡ ok upstream
      pub no_hop_sent : keep is_hop headers ≡ []
      pub status : answer.status ≡ upstream.status
      pub payload : answer.payload ≡ upstream.payload
      pub well_headed : WellHeaded (bytes answer.payload) answer.headers

    answer_with-Passed :
        (r : Received) (sent : Option String) (result : Result Response) (answer : Response)
        → request r.command (upstream_path r.path) sent (forwarded lower r.headers) ≡ result
        → answer_with lower int_of read bytes request result ≡ ok answer
        → Passed r answer
    unfolding answer_with
    answer_with-Passed r sent (err e) answer asked h = cc
    answer_with-Passed r sent (ok up) answer asked h =
        let full : Response = record up {
          headers = answered lower (bytes up.payload) up.headers;
        } in
        let same : full ≡ answer = ok_same full answer h in
        rw (← same) (record {
          sent = sent;
          headers = forwarded lower r.headers;
          upstream = up;
          asked = rw (← upstream_path-behind r.path) asked;
          no_hop_sent = forwarded_lem r.headers;
          status = refl;
          payload = refl;
          well_headed = answered-WellHeaded (bytes up.payload) up.headers;
        })
      where
        ok_same : (a b : Response) → ◌≡◌ {A = Result Response} (ok a) (ok b) → a ≡ b
        ok_same a b e = cc

    forward_length-Passed :
        (r : Received) (n : Result ℤ) (answer : Response)
        → forward_length lower int_of read bytes request r n ≡ ok answer
        → Passed r answer
    unfolding forward_length
    forward_length-Passed r (err e) answer h = cc
    forward_length-Passed r (ok n) answer h =
        answer_with-Passed r (body lower read n)
          (request r.command (upstream_path r.path) (body lower read n) (forwarded lower r.headers))
          answer refl h

    -- A request that the proxy answers (with a `str.lower` that reads "Content-Length" as HTTP does)
    -- has been sent to the upstream, without a hop-by-hop header, and under its own path if that does
    -- not start with /rest/v1, else under what follows: the root for nothing, the rest for a path, a
    -- query of the root for a query, and the path unchanged for a longer name. The answer has the
    -- status and the payload of the upstream's, one Content-Length header, which is the length of the
    -- payload, and no hop-by-hop header.
    pub forward-Passed :
        (r : Received) (answer : Response)
        → forward lower int_of read bytes request r ≡ ok answer
        → Passed r answer
    unfolding forward
    forward-Passed r answer h =
        forward_length-Passed r (body_length lower int_of (content_length lower r.headers)) answer h
