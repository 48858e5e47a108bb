-- ===== src/Server/Tools/Profile/Budget.antt =====
-- The loop of `get_profile`: which facts fit the budget, and how long the answer gets.
use native.Mathlib.Nat.{add_assoc}
use murray_context_ledger_mc.Base.{
  ℕ, ◌+◌, ◌*◌, ◌≤◌, ◌<◌, ◌≡◌, refl, ap, String, ◌<>◌, ltb, Bool-cases, inl, inr, List, [], ◌∷◌,
  ◌++◌, map, length, size, size-append, join_tail, arith,
}
use murray_context_ledger_mc.Store.{FactRow}
use murray_context_ledger_mc.Server.Render.{estimate_tokens, fact_line, max_line}
use murray_context_ledger_mc.Server.Tools.Profile.{
  profile_lines, profile_token_budget, profile_fact_cap, profile_text, header,
}

abbrev pub cost : FactRow → ℕ
cost r = estimate_tokens (fact_line max_line r)

abbrev pub costs : List FactRow → ℕ
costs [] = 0
costs (r ∷ rows) = cost r + costs rows

abbrev pub line_of : FactRow → String × String
line_of r = (fact_line max_line r, r.id)

-- Where a selection ends: the facts are used up, or the next one is over the budget.
abbrev pub Stops : ℕ → List FactRow → Type 0
Stops used [] = Unit
Stops used (r ∷ rest) = profile_token_budget < used + cost r

-- The chosen facts are the longest run from the start that stays within the budget, and each
-- gives its line and its id.
pub record Chosen (used : ℕ) (rows : List FactRow) (lines : List (String × String)) : Type 0 where
  pub chosen : List FactRow
  pub rest : List FactRow
  pub split : rows ≡ chosen ++ rest
  pub lines_are : lines ≡ map line_of chosen
  pub within : used + costs chosen ≤ profile_token_budget
  pub stops : Stops (used + costs chosen) rest

-- From a budget that is not used up, the loop of `get_profile` chooses the longest run from the
-- start of the rows whose estimated tokens stay within 400 in all, and gives the line and the id
-- of each row of it.
pub profile_lines-Chosen :
    (used : ℕ) (rows : List FactRow)
    → used ≤ profile_token_budget
    → Chosen used rows (profile_lines used rows)
unfolding profile_lines
profile_lines-Chosen used [] h = record {
  chosen = [];
  rest = [];
  split = refl;
  lines_are = refl;
  within = omega arith;
  stops = tt;
}
profile_lines-Chosen used (r ∷ rows) h =
    elim (Bool-cases (ltb profile_token_budget (used + cost r))) [
      | inl over ↦ record {
        chosen = [];
        rest = r ∷ rows;
        split = refl;
        lines_are = rw over;
        within = omega arith;
        stops = ground arith;
      }
      | inr fits ↦
          let more = profile_lines-Chosen (used + cost r) rows (ground arith) in
          record {
            chosen = r ∷ more.chosen;
            rest = more.rest;
            split = ap (λ rs. r ∷ rs) more.split;
            lines_are = rw fits (ap (λ ls. line_of r ∷ ls) more.lines_are);
            within = omega (arith, more.within);
            stops = rw (← add_assoc used (cost r) (costs more.chosen)) more.stops;
          }
    ]

size-le-estimate_tokens : (s : String) → size s ≤ 4 * estimate_tokens s
unfolding estimate_tokens
size-le-estimate_tokens s = omega arith

abbrev newline : String
newline = "\n"

-- The lines of some facts, each after a newline.
size-join_tail :
    (rows : List FactRow)
    → size (join_tail newline (map (λ l. l.0) (map line_of rows))) ≤ 4 * costs rows + length rows
size-join_tail [] = omega arith
size-join_tail (r ∷ rows) =
    let line = fact_line max_line r in
    let tail = join_tail newline (map (λ l. l.0) (map line_of rows)) in
    omega (
      arith,
      size-append newline (line <> tail),
      size-append line tail,
      size-le-estimate_tokens line,
      size-join_tail rows,
    )

pub size-profile_text :
    (rows : List FactRow)
    → estimate_tokens header + costs rows ≤ profile_token_budget
    → length rows ≤ profile_fact_cap
    → size (profile_text (map (λ l. l.0) (map line_of rows)))
      ≤ 4 * profile_token_budget + profile_fact_cap
unfolding profile_text estimate_tokens
size-profile_text [] h n = omega arith
size-profile_text (r ∷ rows) h n = omega (
  arith,
  size-append header (join_tail newline (map (λ l. l.0) (map line_of (r ∷ rows)))),
  size-join_tail (r ∷ rows),
)
