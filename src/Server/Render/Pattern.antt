-- ===== src/Server/Render/Pattern.antt =====
-- The pattern of `_search_facts`, read as PostgREST and SQL read the pattern of `ilike`: each `*` is
-- another way to write `%`; then `%` stands for any text, `_` for any one character, and a backslash
-- takes the character after it as it is. Which characters are the same but for case is a parameter.
use Prim.Native.Char.{code}
use text.Mathlib.TextLemmas.{nil-append, cons-append}
use murray_context_ledger_mc.Base.{
  ℕ, ◌≡◌, refl, sym, ap, ◌∙◌, subst, ◌⊎◌, inl, inr, String, ◌<>◌, Bool, true, false, ◌||◌,
  Bool-cases, List, [], ◌∷◌, ◌++◌, eqb, arith, if◌then◌else◌,
}
use murray_context_ledger_mc.Uuid.{codes}
use murray_context_ledger_mc.Server.Render.{replace, like_pattern}

-- The rest of the text after any one character passes.
abbrev pub skips : (List ℕ → Bool) → List ℕ → Bool
skips k [] = false
skips k (x ∷ s) = k s

-- Some end of the text passes.
abbrev pub ends : (List ℕ → Bool) → List ℕ → Bool
ends k [] = k []
ends k (x ∷ s) = k (x ∷ s) || ends k s

abbrev is_nil : List ℕ → Bool
is_nil [] = true
is_nil (x ∷ s) = false

module _ (same_letter : ℕ → ℕ → Bool) where
  -- The text begins with this character, and its rest passes.
  abbrev pub eats : ℕ → (List ℕ → Bool) → List ℕ → Bool
  eats c k [] = false
  eats c k (x ∷ s) = if same_letter c x then k s else false

  -- The match of a pattern; the flag says that a backslash stands in front.
  abbrev pub like : Bool → List ℕ → List ℕ → Bool
  like escaped [] = is_nil
  like true (c ∷ p) = eats c (like false p)
  like false (c ∷ p) =
      let rest = like false p in
      let taken = like true p in
      if eqb c 92
      then taken
      else if eqb c 37
      then ends rest
      else if eqb c 95
      then skips rest
      else eats c rest

  -- The text begins with the query, where each `*` of the query stands for any text.
  abbrev pub begins_with : List ℕ → List ℕ → Bool
  begins_with [] s = true
  begins_with (c ∷ q) s =
      let rest = begins_with q in if eqb c 42 then ends rest s else eats c rest s

-- `old` replaced by the code points of `new`.
abbrev pub sub : ℕ → List ℕ → List ℕ → List ℕ
sub old new [] = []
sub old new (c ∷ s) = let rest = sub old new s in if eqb c old then new ++ rest else c ∷ rest

codes-append : (s t : String) → codes (s <> t) ≡ codes s ++ codes t
codes-append String.[] t = rw nil-append refl
codes-append (String.◌∷◌ c s) t = rw cons-append (ap (λ xs. code c ∷ xs) (codes-append s t))

codes-replace :
    (old : ℕ) (new s : String) → codes (replace old new s) ≡ sub old (codes new) (codes s)
unfolding replace
codes-replace old new String.[] = refl
codes-replace old new (String.◌∷◌ c s) = elim (Bool-cases (eqb (code c) old)) [
  | inl e ↦
      rw e (
        codes-append new (replace old new s) ∙ ap (λ xs. codes new ++ xs) (codes-replace old new s))
  | inr e ↦ rw e (ap (λ xs. code c ∷ xs) (codes-replace old new s))
]

abbrev escaped : List ℕ → List ℕ
escaped q = sub 95 (92 ∷ 95 ∷ []) (sub 37 (92 ∷ 37 ∷ []) (sub 92 (92 ∷ 92 ∷ []) q))

codes-like_pattern :
    (query : String) → codes (like_pattern query) ≡ 37 ∷ (escaped (codes query) ++ (37 ∷ []))
unfolding like_pattern
codes-like_pattern query =
    let once = replace 92 "\\\\" query in
    let twice = replace 37 "\\%" once in
    let all = replace 95 "\\_" twice in
    codes-append "%" (all <> "%")
    ∙ ap (λ xs. 37 ∷ xs)
        (codes-append all "%"
          ∙ ap (λ xs. xs ++ (37 ∷ []))
              (codes-replace 95 "\\_" twice
                ∙ ap (sub 95 (92 ∷ 95 ∷ [])) (
                    codes-replace 37 "\\%" once
                    ∙ ap (sub 37 (92 ∷ 37 ∷ [])) (codes-replace 92 "\\\\" query))))

eats_same :
    (same_letter : ℕ → ℕ → Bool) (c : ℕ) (k l : List ℕ → Bool) (s : List ℕ)
    → ((t : List ℕ) → k t ≡ l t)
    → eats same_letter c k s ≡ eats same_letter c l s
eats_same same_letter c k l [] h = refl
eats_same same_letter c k l (x ∷ s) h = ap (λ b. if same_letter c x then b else false) (h s)

ends_same : (k l : List ℕ → Bool) (s : List ℕ) → ((t : List ℕ) → k t ≡ l t) → ends k s ≡ ends l s
ends_same k l [] h = h []
ends_same k l (x ∷ s) h = rw (h (x ∷ s), ends_same k l s h) refl

ends_nil : (s : List ℕ) → ends is_nil s ≡ true
ends_nil [] = refl
ends_nil (x ∷ s) = ends_nil s

-- A character is one of the three that are escaped, or a `*`, or none of them.
special :
    (c : ℕ)
    → (c ≡ 92)
      ⊎ (c ≡ 37)
      ⊎ (c ≡ 95)
      ⊎ (c ≡ 42)
      ⊎ ((eqb c 92 ≡ false) × (eqb c 37 ≡ false) × (eqb c 95 ≡ false) × (eqb c 42 ≡ false))
special c = elim (Bool-cases (eqb c 92)) [
  | inl e ↦ inl (ground arith)
  | inr a ↦ elim (Bool-cases (eqb c 37)) [
    | inl e ↦ inr (inl (ground arith))
    | inr b ↦ elim (Bool-cases (eqb c 95)) [
      | inl e ↦ inr (inr (inl (ground arith)))
      | inr d ↦ elim (Bool-cases (eqb c 42)) [
        | inl e ↦ inr (inr (inr (inl (ground arith))))
        | inr f ↦ inr (inr (inr (inr (a, b, d, f))))
      ]
    ]
  ]
]

-- `ilike` of PostgREST: each `*` is a `%`.
abbrev pub ilike : (ℕ → ℕ → Bool) → String → String → Bool
ilike same_letter content pattern =
    like same_letter false (sub 42 (37 ∷ []) (codes pattern)) (codes content)

module _ (same_letter : ℕ → ℕ → Bool) where
  like-escaped :
      (q s : List ℕ)
      → like same_letter false (sub 42 (37 ∷ []) (escaped q ++ (37 ∷ []))) s
        ≡ begins_with same_letter q s
  like-escaped [] s = ends_nil s
  like-escaped (c ∷ q) s =
      let Same : ℕ → Type 0 = λ x.
        like same_letter false (sub 42 (37 ∷ []) (escaped (x ∷ q) ++ (37 ∷ []))) s
        ≡ begins_with same_letter (x ∷ q) s in
      elim (special c) [
        | inl e ↦ subst Same (sym e) (eats_same same_letter 92 _ _ s (like-escaped q))
        | inr (inl e) ↦ subst Same (sym e) (eats_same same_letter 37 _ _ s (like-escaped q))
        | inr (inr (inl e)) ↦ subst Same (sym e) (eats_same same_letter 95 _ _ s (like-escaped q))
        | inr (inr (inr (inl e))) ↦ subst Same (sym e) (ends_same _ _ s (like-escaped q))
        | inr (inr (inr (inr (a, b, d, f)))) ↦
            rw (a, b, d, f) (rw (a, b, d) (eats_same same_letter c _ _ s (like-escaped q)))
      ]

  -- A content matches the pattern of a query, as PostgREST reads patterns of `ilike`, exactly if
  -- somewhere in it the query begins as it is written, but for case, where each `*` of the query
  -- stands for any text: `%`, `_` and the backslash of a query are plain characters, and `*` is the
  -- one that is not.
  pub ilike-like_pattern :
      (query content : String)
      → ilike same_letter content (like_pattern query)
        ≡ ends (begins_with same_letter (codes query)) (codes content)
  ilike-like_pattern query content =
      rw (codes-like_pattern query) (ends_same _ _ (codes content) (like-escaped (codes query)))
