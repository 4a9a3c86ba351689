-- ===== src/SelfMap/Keys.antt =====
-- The keys of a Treasure Map in app/services/self_map_build.py: their one spelling, their parsing,
-- the order by how specific they are, and what they match and cover. Texts are lists of code
-- points. `compare_keys` gives the sign of the integer that the source returns.
pub mod Spelling
pub mod Order
pub mod Winner
pub mod Distinct
use Prim.Native.Nat.{compare, Ordering}
use brainstorm_server.Common.{
  ℕ, zero, suc, ◌+◌, ◌-◌, ◌*◌, ◌/◌, ◌%◌, Bool, true, false, not, ◌&&◌, ◌||◌, Option, none, some,
  List, [], ◌∷◌, ◌++◌, map, ◌==◌, leb, length, String, if◌then◌else◌,
}
use brainstorm_server.Common.Text.{
  Text, codes, is_nil, text_eq, is_in_text, compare_text, before, behind, split_on, join,
}

abbrev pub colon : ℕ
colon = b':'

abbrev pub score_kind : ℕ
score_kind = 30382

-- `range(first, first + n)`.
abbrev pub range_from : ℕ → ℕ → List ℕ
range_from first zero = []
range_from first (suc n) = first ∷ range_from (suc first) n

abbrev pub score_kinds : List ℕ
score_kinds = range_from 30380 10

abbrev pub list_kinds : List ℕ
list_kinds = range_from 30390 10

abbrev pub concept_kinds : List ℕ
concept_kinds = 39998 ∷ 39999 ∷ []

abbrev pub system_words : List Text
system_words = codes "tag" ∷ codes "pin" ∷ codes "dlist" ∷ codes "contexts" ∷ []

abbrev pub nameless_keys : List Text
nameless_keys =
    codes "39998:" ∷ codes "39999:" ∷ codes "39999:dlist-header" ∷ codes "39999:duty-menu" ∷ []

abbrev pub is_score_kind : ℕ → Bool
is_score_kind kind = leb 30380 kind && leb kind 30389

abbrev pub is_list_kind : ℕ → Bool
is_list_kind kind = leb 30390 kind && leb kind 30399

abbrev pub has_kind : ℕ → List ℕ → Bool
has_kind kind [] = false
has_kind kind (k ∷ ks) = kind == k || has_kind kind ks

abbrev pub is_concept_kind : ℕ → Bool
is_concept_kind kind = has_kind kind concept_kinds

-- What part of its kinds a key or probe stands for.
pub data Scope : Type 0 where
  all : Scope
  metric : Text → Scope
  concept : Text → Scope
  unchecked : Text → Scope
  other : Scope

abbrev pub scope_eq : Scope → Scope → Bool
scope_eq all all = true
scope_eq (metric s) (metric t) = text_eq s t
scope_eq (concept s) (concept t) = text_eq s t
scope_eq (unchecked s) (unchecked t) = text_eq s t
scope_eq other other = true
scope_eq _ _ = false

pub record Key : Type 0 where
  pub norm : Text
  pub slot : Text
  pub kinds : List ℕ
  pub segs : List Text
  pub rank : ℕ
  pub scope : Scope

pub record Probe : Type 0 where
  pub kind : ℕ
  pub scope : Scope

abbrev pub probe_eq : Probe → Probe → Bool
probe_eq p q = p.kind == q.kind && scope_eq p.scope q.scope

-- The kind slots that the engine reads, `KIND_SLOT`.
abbrev pub is_digit : ℕ → Bool
is_digit c = leb b'0' c && leb c b'9'

abbrev pub all_digits : Text → Bool
all_digits [] = true
all_digits (c ∷ cs) = is_digit c && all_digits cs

abbrev pub star : Text
star = codes "*"

unfoldable pub is_kind_slot : Text → Bool
is_kind_slot slot =
    (all_digits slot && length slot == 5)
    || (text_eq slot (codes "3038x") || (text_eq slot (codes "3039x") || text_eq slot star))

-- `int(slot)`, of ASCII digits.
abbrev decimal_from : ℕ → Text → ℕ
decimal_from n [] = n
decimal_from n (c ∷ cs) = decimal_from (n * 10 + (c - b'0')) cs

unfoldable pub int_of : Text → ℕ
int_of slot = decimal_from 0 slot

-- `while segments and segments[-1] == "": segments.pop()`
unfoldable pub pop_empty : List Text → List Text
pop_empty [] = []
pop_empty (s ∷ ss) = let rest = pop_empty ss in if is_nil rest && is_nil s then [] else s ∷ rest

abbrev pub is_concept_slot : Text → Bool
is_concept_slot slot = text_eq slot (codes "39998") || text_eq slot (codes "39999")

unfoldable pub normalize_key : Text → Text
normalize_key key =
    let slot = before colon key in
    let rest = behind colon key in
    if is_concept_slot slot
    then if text_eq slot (codes "39998") && text_eq rest (codes "dlist-header")
      then codes "39998"
      else key
    else join colon slot (pop_empty (if is_nil rest then [] else split_on colon rest))

-- The Concept kinds that a bare Concept slot covers, and its rank.
abbrev pub concept_reading : Text → List ℕ × ℕ
concept_reading slot = if text_eq slot (codes "39998") then (concept_kinds, 2) else (39999 ∷ [], 3)

abbrev pub drop : ℕ → Text → Text
drop zero s = s
drop (suc n) [] = []
drop (suc n) (c ∷ cs) = drop n cs

unfoldable pub concept_key : Text → Text → Key
concept_key norm slot =
    if text_eq norm slot
    then record {
      norm = norm;
      slot = slot;
      kinds = (concept_reading slot).0;
      segs = [];
      rank = (concept_reading slot).1;
      scope = all;
    }
    else let d = drop (suc (length slot)) norm in
      record {
        norm = norm;
        slot = slot;
        kinds = int_of slot ∷ [];
        segs = d ∷ [];
        rank = 3;
        scope = concept d;
      }

abbrev pub tail {ℓ} : {A : Type ℓ} → List A → List A
tail [] = []
tail (x ∷ xs) = xs

-- The kinds and the rank of a slot that is no Concept's.
unfoldable pub slot_reading : Text → List Text → List ℕ × ℕ
slot_reading slot segs =
    if text_eq slot star
    then (score_kinds ++ list_kinds ++ (if is_nil segs then concept_kinds else []), 0)
    else if text_eq slot (codes "3038x")
    then (score_kinds, 1)
    else if text_eq slot (codes "3039x")
    then (list_kinds, 1)
    else (int_of slot ∷ [], 3)

abbrev pub every_kind : (ℕ → Bool) → List ℕ → Bool
every_kind test [] = true
every_kind test (k ∷ ks) = test k && every_kind test ks

unfoldable pub scope_of : Text → Text → List ℕ → List Text → Scope
scope_of norm slot kinds [] = all
scope_of norm slot kinds (s ∷ []) =
    if not (text_eq slot star)
      && (every_kind is_score_kind kinds && (not (is_nil s) && not (is_in_text s system_words)))
    then metric s
    else unchecked norm
scope_of norm slot kinds (s ∷ t ∷ ss) = unchecked norm

unfoldable pub other_key : Text → Text → Key
unfolding slot_reading scope_of
other_key norm slot =
    let segs = tail (split_on colon norm) in
    let reading = slot_reading slot segs in
    record {
      norm = norm;
      slot = slot;
      kinds = reading.0;
      segs = segs;
      rank = reading.1;
      scope = scope_of norm slot reading.0 segs;
    }

unfoldable pub parse_key : Text → Option Key
parse_key key =
    let slot = before colon key in
    let norm = normalize_key key in
    if not (is_kind_slot slot)
    then none
    else if is_in_text norm nameless_keys
    then none
    else if is_concept_slot slot
    then some (concept_key norm slot)
    else some (other_key norm slot)

-- One segment: a value beats an empty or omitted one.
abbrev pub compare_seg : Text → Text → Ordering
compare_seg [] [] = Ordering.eq
compare_seg [] (d ∷ ds) = Ordering.gt
compare_seg (c ∷ cs) [] = Ordering.lt
compare_seg (c ∷ cs) (d ∷ ds) = compare_text (c ∷ cs) (d ∷ ds)

infixr 25 ◌or_next◌
abbrev pub ◌or_next◌ : Ordering → Ordering → Ordering
Ordering.lt or_next o = Ordering.lt
Ordering.eq or_next o = o
Ordering.gt or_next o = Ordering.gt

unfoldable pub compare_segs : List Text → List Text → Ordering
compare_segs [] [] = Ordering.eq
compare_segs [] (v ∷ vs) = compare_seg [] v or_next compare_segs [] vs
compare_segs (u ∷ us) [] = compare_seg u [] or_next compare_segs us []
compare_segs (u ∷ us) (v ∷ vs) = compare_seg u v or_next compare_segs us vs

-- `lt` where the first is the more specific.
unfoldable pub compare_keys : Key → Key → Ordering
compare_keys a b =
    compare b.rank a.rank or_next compare_text a.slot b.slot or_next compare_segs a.segs b.segs

abbrev pub is_lt : Ordering → Bool
is_lt Ordering.lt = true
is_lt _ = false

abbrev pub is_all : Scope → Bool
is_all all = true
is_all _ = false

unfoldable pub matches : Key → Probe → Bool
matches key probe = has_kind probe.kind key.kinds && elim key.scope [
  | all ↦ true
  | metric s ↦ scope_eq probe.scope (metric s)
  | concept d ↦ scope_eq probe.scope (concept d)
  | unchecked s ↦ scope_eq probe.scope (unchecked key.norm)
  | other ↦ scope_eq probe.scope (unchecked key.norm)
]

-- Does `row` match every insight that `key` could match?
unfoldable pub covers : Key → Key → Bool
covers row key = every_kind (λ kind. has_kind kind row.kinds) key.kinds && elim row.scope [
  | all ↦ true
  | unchecked s ↦ text_eq row.norm key.norm
  | metric s ↦ scope_eq key.scope (metric s)
  | concept d ↦ scope_eq key.scope (concept d)
  | other ↦ scope_eq key.scope other
]

-- `str(kind)` of a kind, which is a natural number: its decimal digits.
abbrev digits_from : ℕ → ℕ → Text → Text
digits_from zero n acc = acc
digits_from (suc fuel) n acc =
    let next = digits_from fuel (n / 10) ((b'0' + n % 10) ∷ acc) in
    if leb n 9 then (b'0' + n) ∷ acc else next

unfoldable pub str_of : ℕ → Text
str_of n = digits_from (suc n) n []

-- A key narrowed to one kind.
abbrev pub meet_of : Key → ℕ → Option Key
meet_of key kind = parse_key (join colon (str_of kind) key.segs)

abbrev is_tag_or_pin : Text → Bool
is_tag_or_pin s = text_eq s (codes "tag") || text_eq s (codes "pin")

abbrev category_empty : List Text → Bool
category_empty (s ∷ t ∷ u ∷ ss) = is_tag_or_pin s && is_nil t
category_empty _ = false

unfoldable pub profiles_spelling : Key → Bool
profiles_spelling key =
    (text_eq key.slot (codes "30392") || text_eq key.slot (codes "30382"))
    && category_empty key.segs

-- The most specific of the candidates that match the probe, from `best` on.
module _ {ℓ} {T : Type ℓ} (key_of : T → Key) where
  abbrev pub more_specific : T → Option T → Bool
  more_specific c none = true
  more_specific c (some b) = is_lt (compare_keys (key_of c) (key_of b))

  unfoldable pub winner_from : Option T → List T → Probe → Option T
  winner_from best [] probe = best
  winner_from best (c ∷ cs) probe =
      winner_from (if matches (key_of c) probe && more_specific c best then some c else best) cs
        probe

  abbrev pub winner_of : List T → Probe → Option T
  winner_of cs probe = winner_from none cs probe
