-- ===== src/Session/Table/Destroy.antt =====
-- destroy_session_cache of src/data_structures/session.c: which objects are freed. An object is named by
-- the cell of its slot. `none` is a failed assertion or an access outside of an array.
use wind_breaker.Prelude.{
  ℕ, zero, suc, ◌≡◌, refl, sym, ap, ◌∙◌, Bool, true, false, List, [], ◌∷◌, ◌++◌, map, Option, none,
  some, length, if◌then◌else◌, Bool-cases, inl, inr,
}
use wind_breaker.Prelude.Fault.{◌>>=◌, ◌>>◌, assert, >>=_of_some}
use wind_breaker.Session.Table.{Slot, Sessions}

-- The cells whose objects are freed, array by array. Each buffer is freed with its bytes.
pub record Freed : Type 0 where
  pub sessions : List ℕ
  pub statuses : List ℕ
  pub buffers : List ℕ
  pub requests : List ℕ
  pub responses : List ℕ
  pub bios : List ℕ
  pub ssls : List ℕ

-- A loop that frees one object of each of the first `rounds` slots.
unfoldable pub free_each : (rounds : ℕ) → List Slot → Option (List ℕ)
free_each zero slots = some []
free_each (suc rounds) [] = none
free_each (suc rounds) (s ∷ slots) = free_each rounds slots >>= λ cells. some (s.cell ∷ cells)

-- `SSL_free` frees the BIO that is attached to the SSL object, as `attached` tells of its cell; one that
-- is not attached is freed by `BIO_free`.
abbrev pub free_bio : Bool → Bool → ℕ → List ℕ × List ℕ
free_bio has_ssl attached cell =
    if has_ssl
    then (let by_hand : List ℕ = if attached then [] else cell ∷ [] in
        let by_ssl : List ℕ = if attached then cell ∷ [] else [] in (by_hand ++ by_ssl, cell ∷ []))
    else (cell ∷ [], [])

-- The loop over the BIOs and the SSL objects.
unfoldable pub free_bios : Bool → (ℕ → Bool) → (rounds : ℕ) → List Slot → Option (List ℕ × List ℕ)
free_bios has_ssl attached zero slots = some ([], [])
free_bios has_ssl attached (suc rounds) [] = none
free_bios has_ssl attached (suc rounds) (s ∷ slots) =
    free_bios has_ssl attached rounds slots >>= λ rest.
    let freed = free_bio has_ssl (attached s.cell) s.cell in
    some (freed.0 ++ rest.0, freed.1 ++ rest.1)

-- `destroyed` is whether the mutex and the conditions can be destroyed. The arrays are NULL afterwards.
unfoldable pub destroy_session_cache : Bool → (ℕ → Bool) → Sessions → Option (Sessions × Freed)
destroy_session_cache destroyed attached t = do
  assert destroyed
  sessions ← free_each t.max_size t.slots
  statuses ← free_each t.max_size t.slots
  buffers ← free_each t.max_size t.slots
  requests ← free_each t.max_size t.slots
  responses ← free_each t.max_size t.slots
  bios ← free_bios t.has_ssl attached t.max_size t.slots
  some (
    record t { slots = []; count = 0; last_index = 0; has_ssl = false },
    record {
      sessions = sessions;
      statuses = statuses;
      buffers = buffers;
      requests = requests;
      responses = responses;
      bios = bios.0;
      ssls = bios.1;
    },
  )

pub cells : List Slot → List ℕ
cells = map (λ (s : Slot). s.cell)

free_each_lem : (slots : List Slot) → free_each (length slots) slots ≡ some (cells slots)
unfolding free_each cells
free_each_lem [] = refl
free_each_lem (s ∷ slots) = >>=_of_some _ (free_each_lem slots) refl

free_bios_lem :
    (has_ssl : Bool) (attached : ℕ → Bool) (slots : List Slot)
    → free_bios has_ssl attached (length slots) slots
      ≡ some (cells slots, if has_ssl then cells slots else [])
unfolding free_bios cells
free_bios_lem true attached [] = refl
free_bios_lem false attached [] = refl
free_bios_lem false attached (s ∷ slots) = >>=_of_some _ (free_bios_lem false attached slots) refl
free_bios_lem true attached (s ∷ slots) =
    >>=_of_some _ (free_bios_lem true attached slots) (elim (Bool-cases (attached s.cell)) [
      | inl by_ssl ↦ rw by_ssl refl
      | inr by_hand ↦ rw by_hand refl
    ])

-- destroy_session_cache frees the objects of every slot of the table, live or not, each once, and the
-- SSL objects if there are any; a BIO is freed once whether it is attached to its SSL object or not.
pub destroy_session_cache_lem :
    (attached : ℕ → Bool) (t : Sessions)
    → length t.slots ≡ t.max_size
    → destroy_session_cache true attached t
      ≡ some (
        record t { slots = []; count = 0; last_index = 0; has_ssl = false },
        record {
          sessions = cells t.slots;
          statuses = cells t.slots;
          buffers = cells t.slots;
          requests = cells t.slots;
          responses = cells t.slots;
          bios = cells t.slots;
          ssls = if t.has_ssl then cells t.slots else [];
        },
      )
unfolding destroy_session_cache
destroy_session_cache_lem attached t h = >>=_of_some _ each (
    >>=_of_some _ each (
      >>=_of_some _ each (
        >>=_of_some _ each (
          >>=_of_some _ each (
            >>=_of_some _
              (ap (λ (n : ℕ). free_bios t.has_ssl attached n t.slots) (sym h)
                ∙ free_bios_lem t.has_ssl attached t.slots)
              refl)))))
  where
    each : free_each t.max_size t.slots ≡ some (cells t.slots)
    each = ap (λ (n : ℕ). free_each n t.slots) (sym h) ∙ free_each_lem t.slots
