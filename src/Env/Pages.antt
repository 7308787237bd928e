-- ===== src/Env/Pages.antt =====
-- The SDK's query.Paginate over the entries of a prefix store.
use wordle.Prelude.{ℕ, ◌≡◌, ◌<◌, ◌^◌, Bool, false, Option, none, some, Bytes, List, length, All}
use wordle.Exec.{Reply, ok}
use wordle.Env.Kv.{find, IsUnique}

-- query.PageRequest
pub record PageRequest : Type 0 where
  pub key : Option Bytes
  pub offset : ℕ
  pub limit : ℕ
  pub count_total : Bool
  pub reverse : Bool

-- The entries that Paginate passes to its callback, in their order, and its response. It visits entries
-- of the store only, and all of them from the first on where the limit leaves room.
pub record Pager : Type 1 where
  pub Response : Type 0
  pub page : Option PageRequest → List (Bytes × Bytes) → Reply (List (Bytes × Bytes) × Response)
  pub page-entries :
      (request : Option PageRequest) (entries visited : List (Bytes × Bytes)) (response : Response)
      → IsUnique entries
      → page request entries ≡ ok (visited, response)
      → All (λ e. find e.0 entries ≡ some e.1) visited
  pub page-whole :
      (limit : ℕ) (count_total : Bool) (entries : List (Bytes × Bytes))
      → length entries < limit
      → limit < 2 ^ 63
      → (response : Response) × (page
            (some (record {
              key = none;
              offset = 0;
              limit = limit;
              count_total = count_total;
              reverse = false;
            }))
            entries
          ≡ ok (entries, response))
