-- ===== src/Bitmap/Calls.antt =====
-- A bitmap under any sequence of calls, and the set of keys that it stands for.
use roaring.Prelude.{
  ℕ, ◌^◌, ◌<◌, ◌≡◌, ◌∙◌, refl, ap, ap₂, fun_ext, Bool, not, ◌&&◌, ◌||◌, List, [], ◌∷◌, Option, some,
  ◌>>=◌, ◌==◌,
}
use roaring.Layout.Fields.{IsNarrow}
use roaring.Containers.{Container}
use roaring.Bitmap.{Bitmap, contains, add_impl, remove}
use roaring.Bitmap.Table.{in_bitmap, IsValid}
use roaring.Bitmap.Points.{bitmap_contains_lem}
use roaring.Bitmap.Add.{bitmap_add_lem}
use roaring.Bitmap.Remove.{bitmap_remove_lem}

-- A call with its key.
pub data Call : Type 0 where
  adding : ℕ → Call
  removing : ℕ → Call
  asking : ℕ → Call

-- What a call makes of a set of keys, and its answer.
abbrev pub set_after : Call → (ℕ → Bool) → ℕ → Bool
set_after (adding value) p v = v == value || p v
set_after (removing value) p v = p v && not (v == value)
set_after (asking value) p v = p v

abbrev pub answer : Call → (ℕ → Bool) → Bool
answer (adding value) p = not (p value)
answer (removing value) p = p value
answer (asking value) p = p value

abbrev pub set_after_all : List Call → (ℕ → Bool) → ℕ → Bool
set_after_all [] p = p
set_after_all (call ∷ rest) p = set_after_all rest (set_after call p)

abbrev pub answers : List Call → (ℕ → Bool) → List Bool
answers [] p = []
answers (call ∷ rest) p = answer call p ∷ answers rest (set_after call p)

-- The same calls on a bitmap.
pub perform : ℕ → (Container → Bool) → Call → Bitmap → Option (Bitmap × Bool)
perform key_bits has_room (adding value) b = add_impl key_bits has_room b value
perform key_bits has_room (removing value) b = remove key_bits b value
perform key_bits has_room (asking value) b = do found ← contains key_bits b value; some (b, found)

pub perform_all : ℕ → (Container → Bool) → List Call → Bitmap → Option (Bitmap × List Bool)
unfolding perform
perform_all key_bits has_room [] b = some (b, [])
perform_all key_bits has_room (call ∷ rest) b = do
  (after, result) ← perform key_bits has_room call b
  (last, results) ← perform_all key_bits has_room rest after
  some (last, result ∷ results)

abbrev pub call_key : Call → ℕ
call_key (adding value) = value
call_key (removing value) = value
call_key (asking value) = value

abbrev pub AllKeys : ℕ → List Call → Type 0
AllKeys key_bits [] = Unit
AllKeys key_bits (call ∷ rest) = (call_key call < 2 ^ key_bits) × AllKeys key_bits rest

module _ (key_bits : ℕ) (has_room : Container → Bool) (narrow : IsNarrow key_bits) where
  one_call :
      (call : Call) (b : Bitmap)
      → IsValid key_bits b
      → call_key call < 2 ^ key_bits
      → (r : Bitmap × Bool) × (perform key_bits has_room call b ≡ some r)
        × IsValid key_bits r.0
        × (in_bitmap key_bits r.0 ≡ set_after call (in_bitmap key_bits b))
        × (r.1 ≡ answer call (in_bitmap key_bits b))
  unfolding perform
  one_call (adding value) b valid h =
      let (r, e, ok, same, flag) = bitmap_add_lem key_bits has_room b value narrow valid h in
      (r, e, ok, fun_ext same, flag)
  one_call (removing value) b valid h =
      let (r, e, ok, same, flag) = bitmap_remove_lem key_bits b value narrow valid h in
      (r, e, ok, fun_ext same, flag)
  one_call (asking value) b valid h =
      let e = bitmap_contains_lem key_bits b value narrow valid h in
      ((b, in_bitmap key_bits b value), rw e refl, valid, refl, refl)

  -- From a well formed bitmap of keys of at most 32 bits, whatever room its arrays have, any
  -- sequence of `add`, `remove` and `contains` calls runs without a read out of bounds or a failed
  -- assertion; it leaves a well formed bitmap, its keys are what the calls make of the set of keys,
  -- and the answers are those of the set.
  pub perform_all_lem :
      (calls : List Call) (b : Bitmap)
      → IsValid key_bits b
      → AllKeys key_bits calls
      → (r : Bitmap × List Bool) × (perform_all key_bits has_room calls b ≡ some r)
        × IsValid key_bits r.0
        × (in_bitmap key_bits r.0 ≡ set_after_all calls (in_bitmap key_bits b))
        × (r.1 ≡ answers calls (in_bitmap key_bits b))
  unfolding perform_all
  perform_all_lem [] b valid keys = ((b, []), refl, valid, refl, refl)
  perform_all_lem (call ∷ rest) b valid (key, keys) =
      let ((after, result), e, ok, same, flag) = one_call call b valid key in
      let ((last, results), e', ok', same', flags) = perform_all_lem rest after ok keys in
      (
        (last, result ∷ results),
        rw (e, e') refl,
        ok',
        same' ∙ ap (set_after_all rest) same,
        ap₂ (λ x xs. x ∷ xs) flag (flags ∙ ap (answers rest) same),
      )
