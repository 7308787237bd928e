-- ===== src/Env/Sample/Paging.antt =====
-- A pager for tests and examples: from the offset on, as many entries as the limit says.
use wordle.Prelude.{
  ℕ, zero, suc, ◌≡◌, refl, ap, ◌<◌, arith, Bool, false, Option, none, some, Bytes, List, [], ◌∷◌,
  length, All, All-map, take, drop, beq_iff, beq_refl,
}
use wordle.Exec.{Reply, ok}
use wordle.Env.Kv.{find, IsUnique}
use wordle.Env.Pages.{PageRequest, Pager}

unfoldable pub page_of :
    Option PageRequest → List (Bytes × Bytes) → Reply (List (Bytes × Bytes) × (Unit {0}))
page_of none entries = ok (take 100 entries, tt)
page_of (some request) entries = ok (take request.limit (drop request.offset entries), tt)

abbrev IsFound : List (Bytes × Bytes) → Bytes × Bytes → Type 0
IsFound entries e = find e.0 entries ≡ some e.1

-- An entry behind the first one keeps its value where the first has another key.
found_behind :
    (k v : Bytes) (entries : List (Bytes × Bytes)) (e : Bytes × Bytes)
    → find k entries ≡ none
    → find e.0 entries ≡ some e.1
    → find e.0 ((k, v) ∷ entries) ≡ some e.1
unfolding find
found_behind k v entries (j, w) n e = ground (arith, n, e, beq_iff k j)

All-found :
    (entries : List (Bytes × Bytes))
    → IsUnique entries
    → All (λ e. find e.0 entries ≡ some e.1) entries
unfolding find
All-found [] u = tt
All-found ((k, v) ∷ entries) (n, u) =
    (rw (beq_refl k), All-map (λ e h. found_behind k v entries e n h) entries (All-found entries u))

All-take : {A : Type 0} (P : A → Type 0) (n : ℕ) (xs : List A) → All P xs → All P (take n xs)
All-take P zero xs h = tt
All-take P (suc n) [] h = tt
All-take P (suc n) (x ∷ xs) (h, hs) = (h, All-take P n xs hs)

All-drop : {A : Type 0} (P : A → Type 0) (n : ℕ) (xs : List A) → All P xs → All P (drop n xs)
All-drop P zero xs h = h
All-drop P (suc n) [] h = tt
All-drop P (suc n) (x ∷ xs) (h, hs) = All-drop P n xs hs

take-all : {A : Type 0} (n : ℕ) (xs : List A) → length xs < n → take n xs ≡ xs
take-all zero xs h = absurd (omega arith)
take-all (suc n) [] h = refl
take-all (suc n) (x ∷ xs) h = ap (λ t. x ∷ t) (take-all n xs (omega arith))

pub page_of-entries :
    (request : Option PageRequest) (entries visited : List (Bytes × Bytes)) (response : Unit {0})
    → IsUnique entries
    → page_of request entries ≡ ok (visited, response)
    → All (λ e. find e.0 entries ≡ some e.1) visited
unfolding page_of
page_of-entries none entries visited response u e =
    let same : take 100 entries ≡ visited = cc in
    rw same at (All-take (IsFound entries) 100 entries (All-found entries u))
page_of-entries (some request) entries visited response u e =
    let same : take request.limit (drop request.offset entries) ≡ visited = cc in
    rw same at (
      All-take (IsFound entries) request.limit (drop request.offset entries)
        (All-drop (IsFound entries) request.offset entries (All-found entries u)))

pub page_of-whole :
    (limit : ℕ) (count_total : Bool) (entries : List (Bytes × Bytes))
    → length entries < limit
    → page_of
        (some (record {
          key = none;
          offset = 0;
          limit = limit;
          count_total = count_total;
          reverse = false;
        }))
        entries
      ≡ ok (entries, tt)
unfolding page_of
page_of-whole limit count_total entries h = ap (λ t. ok (t, tt)) (take-all limit entries h)

abbrev pub sample_pager : Pager
sample_pager = record {
  Response = Unit {0};
  page = page_of;
  page-entries = page_of-entries;
  page-whole = λ limit count_total entries h k. (tt, page_of-whole limit count_total entries h);
}
