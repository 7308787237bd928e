-- ===== src/Keeper/Queries/Pages/Laws.antt =====
-- What the pages list, against the queries of one entry and the whole lists.
use wordle.Prelude.{
  ◌≡◌, refl, ap, sym, ◌∙◌, ℕ, ◌<◌, ◌^◌, Bool, false, Option, none, some, Bytes, List, [], ◌∷◌, ◌++◌,
  length, All, All-map,
}
use wordle.Exec.{Reply, ok, err, panic, must, cons_reply, some_reply}
use wordle.Types.{Wordle, Guess}
use wordle.Types.Keys.{guess_key, guess_key_prefix, wordle_key_prefix}
use wordle.Env.{Env, Codec}
use wordle.Env.Kv.{KvStore}
use wordle.Env.Pages.{PageRequest, Pager}
use wordle.Keeper.Entries.{Keeps, IsEntry, read_entry, read_entries}
use wordle.Keeper.Guesses.Listing
use wordle.Keeper.Guesses.Listing.{guess_index}
use wordle.Keeper.Guesses.Laws.{guess_path, get_guess_lem}
use wordle.Keeper.Guesses.{get_all_guess}
use wordle.Keeper.Wordles.Laws.{wordle_path, get_wordle_lem}
use wordle.Keeper.Wordles.Listing as WordleListing
use wordle.Keeper.Wordles.Listing.{wordle_index}
use wordle.Keeper.Queries.{query_guess, query_wordle, found_or_error}
use wordle.Keeper.Queries.Pages.{
  or_internal, collect, collect_page, query_guess_all, query_wordle_all,
}

-- A loop that panics where another returns the error: the same list where neither meets one.
collect_step :
    {A : Type 0} (r : Reply A) (more collected : Reply (List A)) (found : List A)
    → ((xs : List A) → more ≡ ok xs → collected ≡ ok xs)
    → cons_reply (must r) more ≡ ok found
    → cons_reply r collected ≡ ok found
collect_step (ok a) (ok xs) collected found h e = rw (h xs refl) e
collect_step (ok a) (err x) collected found h e = absurd (cc)
collect_step (ok a) panic collected found h e = absurd (cc)
collect_step (err x) more collected found h e = absurd (cc)
collect_step panic more collected found h e = absurd (cc)

-- The elements belong to the entries, one for one and in their order.
abbrev pub Each :
    {A : Type 0} → (Bytes × Bytes → A → Type 0) → List (Bytes × Bytes) → List A → Type 0
Each R [] [] = Unit {0}
Each R [] (a ∷ found) = ⊥
Each R (e ∷ visited) [] = ⊥
Each R (e ∷ visited) (a ∷ found) = R e a × Each R visited found

module _ {A : Type 0} {IsWire : A → Type 0} (codec : Codec A IsWire) where
  -- Entries that can all be read are collected, an element for each.
  collect_lem :
      (R : Bytes × Bytes → A → Type 0) (visited : List (Bytes × Bytes))
      → All (λ e. (a : A) × (codec.unmarshal e.1 ≡ ok a) × R e a) visited
      → (found : List A) × (collect codec visited ≡ ok found) × Each R visited found
  unfolding collect
  collect_lem R [] h = ([], refl, tt)
  collect_lem R ((k, bz) ∷ visited) ((a, u, ra), h) =
      let (found, e, rs) = collect_lem R visited h in (a ∷ found, rw (u, e), (ra, rs))

  module _ (index : A → Bytes) (pager : Pager) (kv : KvStore) (b : ℕ) (p : Bytes) where
    open kv use {Store, get, entries_in, find-entries_in, entries_in-IsUnique}

    -- What a page collects of a store in order: each element is read from its entry, which stands under
    -- the element's own key, and the query of its index, as Q says it, finds it.
    page_lem :
        (Q : A → Type 0) (request : Option PageRequest) (visited : List (Bytes × Bytes))
        (response : pager.Response) (s : Store)
        → Keeps kv b p (IsEntry index codec) s
        → ((a : A)
            → read_entry index codec (get s ((b ∷ p) ++ guess_key (index a))) ≡ ok (some a)
            → Q a)
        → pager.page request (entries_in (b ∷ p) s) ≡ ok (visited, response)
        → (found : List A) × (collect codec visited ≡ ok found)
          × Each
              (λ entry a. (codec.unmarshal entry.1 ≡ ok a) × (entry.0 ≡ guess_key (index a)) × Q a)
              visited
              found
    page_lem Q request visited response s kept query e = collect_lem _ visited (
        All-map
          (λ entry f.
            let at = sym (find-entries_in (b ∷ p) s entry.0) ∙ f in
            let (a, u, k) = kept entry.0 entry.1 at in
            (
              a,
              u,
              (
                u,
                k,
                query a (
                    ap (λ x. read_entry index codec (get s ((b ∷ p) ++ x))) (sym k)
                    ∙ ap (read_entry index codec) at
                    ∙ ap (λ r. some_reply (must r)) u),
              ),
            ))
          visited
          (pager.page-entries request (entries_in (b ∷ p) s) visited response
            (entries_in-IsUnique (b ∷ p) s) e))

  -- Where every entry can be read, collecting is what the loop over the whole list does.
  collect-read_entries :
      (index : A → Bytes) (entries : List (Bytes × Bytes)) (found : List A)
      → read_entries index codec entries ≡ ok found
      → collect codec entries ≡ ok found
  unfolding collect read_entries
  collect-read_entries index [] found e = e
  collect-read_entries index ((k, bz) ∷ entries) found e =
      collect_step (codec.unmarshal bz) (read_entries index codec entries) (collect codec entries)
        found (collect-read_entries index entries) e

module _ (env : Env) (pager : Pager) where
  open env use {Store, get, entries_in, guess_codec, wordle_codec, kv}
  open pager use {Response, page}

  query_guess_found :
      (i : Bytes) (g : Guess) (s : Store)
      → read_entry guess_index guess_codec (get s (guess_path i)) ≡ ok (some g)
      → query_guess env (some i) s ≡ (ok g, s)
  unfolding query_guess found_or_error
  query_guess_found i g s h =
      rw (get_guess_lem env i s, Listing.decode_guess_lem env (get s (guess_path i)), h) refl

  query_wordle_found :
      (i : Bytes) (w : Wordle) (s : Store)
      → read_entry wordle_index wordle_codec (get s (wordle_path i)) ≡ ok (some w)
      → query_wordle env (some i) s ≡ (ok w, s)
  unfolding query_wordle found_or_error
  query_wordle_found i w s h =
      rw (get_wordle_lem env i s, WordleListing.decode_wordle_lem env (get s (wordle_path i)), h)
        refl

  -- On a store whose guess entries can each be read and stand under the own key of the guess, where
  -- Paginate visits a page of them, GuessAll lists a guess for each visited entry, in their order: it is
  -- the decoding of the entry's value, the entry's key is that of the guess's index, and the query of the
  -- index returns the guess. Nothing changes.
  pub query_guess_all_lem :
      (request : Option PageRequest) (visited : List (Bytes × Bytes)) (response : Response)
      (s : Store)
      → Listing.IsKept env s
      → page request (entries_in guess_key_prefix s) ≡ ok (visited, response)
      → (found : List Guess) × (query_guess_all env pager (some request) s
          ≡ (ok (found, response), s))
        × Each
            (λ entry g.
              (guess_codec.unmarshal entry.1 ≡ ok g)
              × (entry.0 ≡ guess_key g.index)
              × (query_guess env (some g.index) s ≡ (ok g, s)))
            visited
            found
  unfolding query_guess_all collect_page or_internal
  query_guess_all_lem request visited response s kept e =
      let (found, c, each) =
        page_lem guess_codec guess_index pager kv 71 Listing.prefix_rest _ request visited response
          s kept (λ g h. query_guess_found g.index g s h) e in
      (found, rw (e, c) refl, each)

  -- On a store whose wordle entries can each be read and stand under the own key of the wordle, where
  -- Paginate visits a page of them, WordleAll lists a wordle for each visited entry, in their order: it is
  -- the decoding of the entry's value, the entry's key is that of the wordle's index, and the query of the
  -- index returns the wordle. Nothing changes.
  pub query_wordle_all_lem :
      (request : Option PageRequest) (visited : List (Bytes × Bytes)) (response : Response)
      (s : Store)
      → WordleListing.IsKept env s
      → page request (entries_in wordle_key_prefix s) ≡ ok (visited, response)
      → (found : List Wordle) × (query_wordle_all env pager (some request) s
          ≡ (ok (found, response), s))
        × Each
            (λ entry w.
              (wordle_codec.unmarshal entry.1 ≡ ok w)
              × (entry.0 ≡ guess_key w.index)
              × (query_wordle env (some w.index) s ≡ (ok w, s)))
            visited
            found
  unfolding query_wordle_all collect_page or_internal
  query_wordle_all_lem request visited response s kept e =
      let (found, c, each) =
        page_lem wordle_codec wordle_index pager kv 87 WordleListing.prefix_rest _ request visited
          response s kept (λ w h. query_wordle_found w.index w s h) e in
      (found, rw (e, c) refl, each)

  -- A page from the start that leaves room for all entries: GuessAll lists what GetAllGuess lists.
  pub query_guess_all-get_all_guess :
      (limit : ℕ) (count_total : Bool) (found : List Guess) (s : Store)
      → get_all_guess env s ≡ (ok found, s)
      → length (entries_in guess_key_prefix s) < limit
      → limit < 2 ^ 63
      → (response : Response) × (query_guess_all env pager
            (some (
              some (record {
                key = none;
                offset = 0;
                limit = limit;
                count_total = count_total;
                reverse = false;
              })))
            s
          ≡ (ok (found, response), s))
  unfolding query_guess_all collect_page or_internal get_all_guess
  query_guess_all-get_all_guess limit count_total found s all room small =
      let entries = entries_in guess_key_prefix s in
      let (response, e) = pager.page-whole limit count_total entries room small in
      let c =
        collect-read_entries guess_codec guess_index entries found
          (sym (Listing.decode_guesses_lem env entries) ∙ ap (λ t. t.0) all) in
      (response, rw (e, c) refl)
