-- ===== src/Keeper/Queries/Pages.antt =====
-- x/wordle/keeper/query_guess.go and query_wordle.go: the lists by pages. `none` stands for a nil request,
-- and the request is the Pagination of another, which may be nil.
pub mod Laws
use wordle.Prelude.{◌≡◌, refl, ap, ◌∙◌, sym, Option, none, some, Bytes, List, [], ◌∷◌}
use wordle.Exec.{
  Reply, ok, err, panic, Exec, fail, lift, gets, invalid_argument, internal, cons_reply, ◌>>=◌,
}
use wordle.Types.{Wordle, Guess}
use wordle.Types.Keys.{guess_key_prefix, wordle_key_prefix}
use wordle.Env.{Env, Codec}
use wordle.Env.Pages.{PageRequest, Pager}

-- `if err != nil { return nil, status.Error(codes.Internal, err.Error()) }`
unfoldable pub or_internal : {A : Type 0} → Reply A → Reply A
or_internal (ok a) = ok a
or_internal (err e) = err internal
or_internal panic = panic

module _ {A : Type 0} {IsWire : A → Type 0} (codec : Codec A IsWire) where
  -- The callback on each entry of a page: it decodes the value and appends it.
  unfoldable pub collect : List (Bytes × Bytes) → Reply (List A)
  collect [] = ok []
  collect ((k, bz) ∷ entries) = cons_reply (codec.unmarshal bz) (collect entries)

  -- Paginate with that callback. The first error of the callback is its error.
  unfoldable pub collect_page : {R : Type 0} → Reply (List (Bytes × Bytes) × R) → Reply (List A × R)
  collect_page (ok (visited, response)) = with_response response (collect visited)
    where
      with_response : {R : Type 0} → R → Reply (List A) → Reply (List A × R)
      with_response response (ok found) = ok (found, response)
      with_response response (err e) = err e
      with_response response panic = panic
  collect_page (err e) = err e
  collect_page panic = panic

module _ (env : Env) (pager : Pager) where
  open env use {Store, entries_in, guess_codec, wordle_codec}
  open pager use {Response, page}

  -- GuessAll
  unfoldable pub query_guess_all : Option (Option PageRequest) → Exec Store (List Guess × Response)
  unfolding collect_page or_internal
  query_guess_all none = fail invalid_argument
  query_guess_all (some request) = do
    entries ← gets (λ s. entries_in guess_key_prefix s)
    lift (or_internal (collect_page guess_codec (page request entries)))

  -- WordleAll
  unfoldable pub query_wordle_all :
      Option (Option PageRequest) → Exec Store (List Wordle × Response)
  unfolding collect_page or_internal
  query_wordle_all none = fail invalid_argument
  query_wordle_all (some request) = do
    entries ← gets (λ s. entries_in wordle_key_prefix s)
    lift (or_internal (collect_page wordle_codec (page request entries)))
