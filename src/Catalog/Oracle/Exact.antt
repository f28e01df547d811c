-- ===== src/Catalog/Oracle/Exact.antt =====
-- The engine's decision is the reference decision, for every class and every session.
use enterprise_rag_engine.Prelude.{
  ℕ, suc, ◌+◌, length-append, All-append, ◌*◌, ◌≤◌, String, ◌≡◌, refl, ap, ◌∙◌, true, false, Option,
  none, some, List, [], ◌∷◌, ◌++◌, map, string_eq, ltb, length, count_if, All, arith, strip, upper,
  has_control, is_nil, contains, le→leb, ◌==◌, is_empty,
}
use mathlib.Core.Path.{ap₂, subst}
use enterprise_rag_engine.Prelude.Dict.{lookup}
use enterprise_rag_engine.Prelude.Fallible.{◌>>=◌}
use enterprise_rag_engine.Schemas.Roles.{
  security_context, session_roles, make_session, normalise_roles,
}
use enterprise_rag_engine.Schemas.{EnrichedChunk, Session, is_public}
use enterprise_rag_engine.Governance.Access.{evaluate, valid_classes, partial_roles}
use enterprise_rag_engine.Governance.Access.Gates.{decision-evaluate}
use enterprise_rag_engine.Catalog.Matrix.{
  SensitivityClass, classes, reference, evaluate_class, Persona,
}
use enterprise_rag_engine.Catalog.Oracle.{
  Cell, Grid, grid_of, cell_of, chunk_for, reveal_get, cell_for, row_for, class_codes, grid_cells,
  build_oracle_grid,
}

-- Role names as the personas write them: no outer white space, not empty, no control character.
abbrev pub IsPlain : String → Type 0
IsPlain r = (strip r ≡ r) × (is_nil r ≡ false) × (has_control r ≡ false)

-- The chunk carries what the class prescribes.
record Mirrors (sc : SensitivityClass) (c : EnrichedChunk) : Type 0 where
  class : c.security.sensitivity_class ≡ sc.code
  level : c.security.clearance_level ≡ sc.min_level
  need : c.security.need_to_know_roles ≡ sc.need_to_know_roles
  unscoped : partial_roles c.metadata ≡ []
  named : is_nil sc.code ≡ false
  known : contains sc.code valid_classes ≡ true
  open_to_all :
      is_public c.security ≡ true
      → ((sc.code == "D") ≡ false) × (sc.min_level ≡ 0) × (is_empty sc.need_to_know_roles ≡ true)

evaluate-Mirrors :
    (sc : SensitivityClass) (c : EnrichedChunk) (s : Session) (raw : List String)
    → Mirrors sc c
    → s.roles ≡ map upper raw
    → (evaluate c s).decision ≡ reference sc s.clearance_level raw
unfolding reference
evaluate-Mirrors sc c s raw m e =
    simp (decision-evaluate, m.class, m.level, m.need, m.unscoped, m.named, m.known, e)
      (ground (arith, m.open_to_all))

-- The catalog's chunk for a class code mirrors the class.
record Covered (cls : String) : Type 0 where
  sc : SensitivityClass
  chunk : EnrichedChunk
  found : lookup cls classes ≡ some sc
  built : chunk_for cls ≡ some chunk
  mirrors : Mirrors sc chunk

covered :
    (cls : String) (sc : SensitivityClass) (c : EnrichedChunk)
    → lookup cls classes ≡ some sc
    → chunk_for cls ≡ some c
    → Mirrors sc c
    → Covered cls
covered cls sc c f b m = record { sc = sc; chunk = c; found = f; built = b; mirrors = m }

-- A class that is not public: it says nothing about `open_to_all`.
mirrors :
    (sc : SensitivityClass) (c : EnrichedChunk)
    → c.security.sensitivity_class ≡ sc.code
    → c.security.clearance_level ≡ sc.min_level
    → c.security.need_to_know_roles ≡ sc.need_to_know_roles
    → partial_roles c.metadata ≡ []
    → (is_nil sc.code ≡ false) × (contains sc.code valid_classes ≡ true)
    → is_public c.security ≡ false
    → Mirrors sc c
mirrors sc c k l n u v closed = record {
  class = k;
  level = l;
  need = n;
  unscoped = u;
  named = v.0;
  known = v.1;
  open_to_all = λ h. cc;
}

class_codes-Covered : All Covered class_codes
unfolding lookup chunk_for security_context normalise_roles is_public partial_roles contains strip
    upper
class_codes-Covered = (
  covered "A" _ _ refl refl (record {
    class = refl;
    level = refl;
    need = refl;
    unscoped = refl;
    named = refl;
    known = refl;
    open_to_all = λ h. (refl, refl, refl);
  }),
  (
    covered "B" _ _ refl refl (mirrors _ _ refl refl refl refl (refl, refl) refl),
    (
      covered "C" _ _ refl refl (mirrors _ _ refl refl refl refl (refl, refl) refl),
      (
        covered "D" _ _ refl refl (mirrors _ _ refl refl refl refl (refl, refl) refl),
        (
          covered "E" _ _ refl refl (mirrors _ _ refl refl refl refl (refl, refl) refl),
          (
            covered "F" _ _ refl refl (mirrors _ _ refl refl refl refl (refl, refl) refl),
            (
              covered "G" _ _ refl refl (mirrors _ _ refl refl refl refl (refl, refl) refl),
              (
                covered "H" _ _ refl refl (mirrors _ _ refl refl refl refl (refl, refl) refl),
                (
                  covered "I" _ _ refl refl (mirrors _ _ refl refl refl refl (refl, refl) refl),
                  (
                    covered "J" _ _ refl refl (mirrors _ _ refl refl refl refl (refl, refl) refl),
                    (
                      covered "K" _ _ refl refl (mirrors _ _ refl refl refl refl (refl, refl) refl),
                      (
                        covered "L" _ _ refl refl
                            (mirrors _ _ refl refl refl refl (refl, refl) refl),
                        (
                          covered "M" _ _ refl refl
                              (mirrors _ _ refl refl refl refl (refl, refl) refl),
                          (
                            covered "N" _ _ refl refl
                                (mirrors _ _ refl refl refl refl (refl, refl) refl),
                            tt,
                          ),
                        ),
                      ),
                    ),
                  ),
                ),
              ),
            ),
          ),
        ),
      ),
    ),
  ),
)

session_roles-plain :
    (roles : List String) → All IsPlain roles → session_roles roles ≡ some (map upper roles)
unfolding session_roles
session_roles-plain [] h = refl
session_roles-plain (r ∷ rs) h = simp (h.0.0, h.0.1, h.0.2, session_roles-plain rs h.1)

-- A persona whose session can be built from plain roles.
abbrev pub IsPlainPersona : Persona → Type 0
IsPlainPersona p = (p.clearance_level ≤ 5) × All IsPlain p.roles

abbrev session_of : Persona → Session
session_of p = record {
  user_id = p.key;
  roles = map upper p.roles;
  clearance_level = p.clearance_level;
}

make_session-plain :
    (p : Persona)
    → IsPlainPersona p
    → make_session p.key p.roles p.clearance_level ≡ some (session_of p)
unfolding make_session
make_session-plain p h =
    rw (session_roles-plain p.roles h.1, make_session) (rw (le→leb p.clearance_level 5 h.0))

-- The engine decided as the reference does, and the cell is not marked as a leak.
abbrev pub IsExact : Cell → Type 0
IsExact cell = (cell.decision ≡ cell.expected) × (cell.leaked ≡ false)

-- Every cell is there and is exact.
abbrev Exactly : ℕ → Option (List Cell) → Type 0
Exactly n none = ⊥
Exactly n (some cells) = (length cells ≡ n) × All IsExact cells

reference_no_leak :
    (sc : SensitivityClass) (level : ℕ) (roles : List String)
    → ltb (reveal_get (reference sc level roles) 0) (reveal_get (reference sc level roles) 3)
      ≡ false
unfolding reference reveal_get
reference_no_leak sc level roles = ground arith

cell_for-Exact :
    (p : Persona) (cls : String)
    → Covered cls
    → (cell : Cell) × (cell_for p (session_of p) cls ≡ some cell) × IsExact cell
unfolding cell_for evaluate_class
cell_for-Exact p cls v =
    let truth = reference v.sc p.clearance_level p.roles in
    let same = evaluate-Mirrors v.sc v.chunk (session_of p) p.roles v.mirrors refl in
    (
      cell_of p (session_of p) cls v.chunk truth,
      rw (v.built, v.found, ◌>>=◌),
      (same, rw same (reference_no_leak v.sc p.clearance_level p.roles)),
    )

Exactly-cons :
    (cell : Cell) (n : ℕ) (row : Option (List Cell))
    → IsExact cell
    → Exactly n row
    → Exactly (suc n) (row >>= λ cells. some (cell ∷ cells))
Exactly-cons cell n none e h = h
Exactly-cons cell n (some cells) e h = (ap suc h.0, (e, h.1))

Exactly-append :
    (m n : ℕ) (row rest : Option (List Cell))
    → Exactly m row
    → Exactly n rest
    → Exactly (m + n) (row >>= λ cells. rest >>= λ others. some (cells ++ others))
Exactly-append m n none rest h k = h
Exactly-append m n (some cells) none h k = k
Exactly-append m n (some cells) (some others) h k =
    (length-append cells others ∙ ap₂ ◌+◌ h.0 k.0, All-append IsExact cells others h.1 k.1)

row_for-Exact :
    (p : Persona) (codes : List String)
    → All Covered codes
    → Exactly (length codes) (row_for p (session_of p) codes)
unfolding row_for
row_for-Exact p [] h = (refl, tt)
row_for-Exact p (cls ∷ rest) h =
    let (cell, made, exact) = cell_for-Exact p cls h.0 in
    rw (made, ◌>>=◌)
      (Exactly-cons cell _ (row_for p (session_of p) rest) exact (row_for-Exact p rest h.1))

grid_cells-Exact :
    (ps : List Persona) → All IsPlainPersona ps → Exactly (length ps * 14) (grid_cells ps)
unfolding grid_cells
grid_cells-Exact [] h = (refl, tt)
grid_cells-Exact (p ∷ ps) h =
    rw (make_session-plain p h.0, ◌>>=◌)
      (subst
        (λ n. Exactly n (
          row_for p (session_of p) class_codes >>= λ cells.
          grid_cells ps >>= λ others. some (cells ++ others)))
        (omega arith)
        (Exactly-append 14 (length ps * 14) (row_for p (session_of p) class_codes) (grid_cells ps)
          (row_for-Exact p class_codes class_codes-Covered) (grid_cells-Exact ps h.1)))

count_if-leaked : (cells : List Cell) → All IsExact cells → count_if (λ c. c.leaked) cells ≡ 0
unfolding count_if
count_if-leaked [] h = refl
count_if-leaked (c ∷ cs) h = rw h.0.1 (omega (arith, count_if-leaked cs h.1))

All-decision : (cells : List Cell) → All IsExact cells → All (λ c. c.decision ≡ c.expected) cells
All-decision [] h = tt
All-decision (c ∷ cs) h = (h.0.0, All-decision cs h.1)

-- A grid of `n` cells, all with the expected decision and none counted as a leak.
abbrev pub HasGrid : ℕ → Option Grid → Type 0
HasGrid n r =
    (g : Grid) × (r ≡ some g)
    × (g.total ≡ n)
    × (g.leaks ≡ 0)
    × All (λ c. c.decision ≡ c.expected) g.cells

HasGrid-of_Exactly :
    (n : ℕ) (r : Option (List Cell)) → Exactly n r → HasGrid n (r >>= λ cells. some (grid_of cells))
HasGrid-of_Exactly n none h = absurd h
HasGrid-of_Exactly n (some cells) h =
    (grid_of cells, refl, h.0, count_if-leaked cells h.1, All-decision cells h.1)

-- For any personas with clearances of at most 5 and plainly written roles, the grid is built, has
-- fourteen cells for each persona, shows in every cell the decision of the reference matrix, and
-- counts no leak.
pub build_oracle_grid-exact :
    (ps : List Persona) → All IsPlainPersona ps → HasGrid (length ps * 14) (build_oracle_grid ps)
unfolding build_oracle_grid
build_oracle_grid-exact ps h =
    HasGrid-of_Exactly (length ps * 14) (grid_cells ps) (grid_cells-Exact ps h)
