-- ===== src/Flash/Parsing/Choice/Entitling.antt =====
-- The rows that entitle, in `_choose_subscription` of app/core/flash.py.
use brainstorm_server.Common.{
  ◌≡◌, refl, subst, inl, inr, Bool, true, false, List, [], ◌∷◌, arith, All, All-weaken, In,
  if◌then◌else◌,
}
use brainstorm_server.Flash.Parsing.{Fields, Read, read, overflow_error, type_error, ◌>>=◌}
use brainstorm_server.Flash.Parsing.Choice.{is_entitling, entitling_rows}

-- A chain that returns, returned at each step.
pub bind_read {ℓ κ} :
    {A : Type ℓ} {B : Type κ} (m : Read A) (f : A → Read B) (b : B)
    → m >>= f ≡ read b
    → (a : A) × (m ≡ read a) × (f a ≡ read b)
bind_read (read a) f b h = (a, refl, h)
bind_read overflow_error f b h = absurd (ground (arith, h))
bind_read type_error f b h = absurd (ground (arith, h))

pub read_same {ℓ} : {A : Type ℓ} (a b : A) → read a ≡ read b → a ≡ b
read_same a b h = cc h

-- What the entitling rows are: rows that entitle, and all of them.
unfoldable pub Entitles : List Fields → Fields → Type 0
Entitles rows r = In r rows × (is_entitling r ≡ read true)

unfoldable pub Sorted : List Fields → Fields → Type 0
Sorted es r = (b : Bool) × (is_entitling r ≡ read b) × ((b ≡ true) → In r es)

Entitles-more : (x r : Fields) (rows : List Fields) → Entitles rows r → Entitles (x ∷ rows) r
unfolding Entitles
Entitles-more x r rows (i, h) = (inr i, h)

Sorted-more : (x r : Fields) (es : List Fields) → Sorted es r → Sorted (x ∷ es) r
unfolding Sorted
Sorted-more x r es (b, h, i) = (b, h, λ e. inr (i e))

Sorted-with :
    (b : Bool) (x : Fields) (es rest : List Fields)
    → All (Sorted rest) es
    → All (Sorted (if b then x ∷ rest else rest)) es
Sorted-with true x es rest h = All-weaken _ _ (λ r. Sorted-more x r rest) es h
Sorted-with false x es rest h = h

first-Sorted :
    (b : Bool) (x : Fields) (rest : List Fields)
    → is_entitling x ≡ read b
    → Sorted (if b then x ∷ rest else rest) x
unfolding Sorted
first-Sorted true x rest e = (true, e, λ t. inl refl)
first-Sorted false x rest e = (false, e, λ t. absurd (ground (arith, t)))

entitling_with :
    (b : Bool) (x : Fields) (rows rest : List Fields)
    → is_entitling x ≡ read b
    → All (Entitles rows) rest
    → All (Entitles (x ∷ rows)) (if b then x ∷ rest else rest)
unfolding Entitles
entitling_with true x rows rest e h =
    ((inl refl, e), All-weaken _ _ (λ r. Entitles-more x r rows) rest h)
entitling_with false x rows rest e h = All-weaken _ _ (λ r. Entitles-more x r rows) rest h

pub entitling_rows_lem :
    (rows es : List Fields)
    → entitling_rows rows ≡ read es
    → All (Entitles rows) es × All (Sorted es) rows
unfolding entitling_rows
entitling_rows_lem [] es h = subst (λ l. All (Entitles []) l × Unit) (read_same [] es h) (tt, tt)
entitling_rows_lem (x ∷ rows) es h =
    let (b, e, after) = bind_read (is_entitling x) _ es h in
    let (rest, tail, made) = bind_read (entitling_rows rows) _ es after in
    let (sound, complete) = entitling_rows_lem rows rest tail in
    subst (λ l. All (Entitles (x ∷ rows)) l × All (Sorted l) (x ∷ rows)) (read_same _ es made)
      (
        entitling_with b x rows rest e sound,
        (first-Sorted b x rest e, Sorted-with b x rows rest complete),
      )
