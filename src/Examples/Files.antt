-- ===== src/Examples/Files.antt =====
-- Runs of the file tools, of the writers and of the merge of memory files.
use mathlib.Core.List.{Perm}
use spacetrek.Prelude.{
  ◌≡◌, refl, ℕ, zero, suc, text_eq, text_lt, sort_by, insert_sorted, ◌<◌, arith, Bool, List, [],
  ◌∷◌, Option, some, none, Text, codes, ltb, ◌==◌, if◌then◌else◌, All, map, select, ℤ, get_elem?,
}
use spacetrek.Exception.{AppError, Outcome, Result, ok, err, internal}
use spacetrek.Vm.{Vm, is_terminated}
use spacetrek.Examples.Repos.{box}
use spacetrek.Tools.{Call, text}
use spacetrek.Writers.{rewrite}
use spacetrek.Writers.Hosts.{render, refresh, host_lines, eligible, is_eligible}
use spacetrek.Writers.Reading.{read, host_words, IsServed, read-render}
use spacetrek.Writers.Refreshing.{new_writer, run, refresh-current}
use spacetrek.Writers.Race.{Reach, State, returned, rendered, rewrite_stale}
use spacetrek.Sparse.{SparseRegion, merge_diff_memory, extract_sparse_regions}
use spacetrek.Sparse.Extracting.{Seeks, merge-extract}
use spacetrek.Fnv.{fnv1a32}
use spacetrek.Prelude.{◌≢◌, true}

abbrev say : AppError → Text
say e = codes "error"

abbrev write_call : Call
write_call = record {
  id = codes "1";
  name = codes "vm.write_file";
  arguments =
      (codes "vm_id", text (codes "vm-1"))
      ∷ (codes "path", text (codes "/a"))
      ∷ (codes "content", text (codes "x\n"))
      ∷ [];
}

-- The state is what was last written.
abbrev keep_content : Text → Text → Text → ℤ → Text → Outcome × Text
keep_content vm path content mode w = (ok tt, content)

abbrev keep_new : Text → Text → Text → Text → Bool → Text → Outcome × Text
keep_new vm path old new all w = (ok tt, new)

abbrev edit_call : Call
edit_call = record write_call {
  arguments =
      (codes "vm_id", text (codes "vm-1"))
      ∷ (codes "path", text (codes "/a"))
      ∷ (codes "old_string", text (codes "x"))
      ∷ (codes "new_string", text [])
      ∷ [];
}

abbrev served_box : Vm
served_box = record box { ip_address = some (codes "10.0.0.2") }

read-render_example :
    (served : List Vm) × (read [] [] (render (served_box ∷ box ∷ [])) ≡ map host_words served)
    × Perm served (select is_eligible (served_box ∷ box ∷ []))
    × All IsServed served
    × ((v : Vm) → IsServed v → is_eligible v ≡ true)
read-render_example = read-render (served_box ∷ box ∷ []) (ground arith, (ground arith, tt))

-- A hash without collisions that is never empty.
abbrev tagged : Text → Text
tagged t = 35 ∷ t

tagged-inj : (a b : Text) → tagged a ≡ tagged b → a ≡ b
tagged-inj a b h = cc

-- A hash with finitely many values.
abbrev short : Text → Text
short t = fnv1a32 t ∷ []

abbrev calls : List (Result (List Vm) × Outcome)
calls = (ok (box ∷ []), ok tt) ∷ (err internal, ok tt) ∷ (ok (served_box ∷ []), err internal) ∷ []

no_error : (refresh short (ok (box ∷ [])) (ok tt) (run short new_writer calls)).0 ≡ ok tt
unfolding refresh rewrite run render host_lines eligible is_eligible sort_by insert_sorted
    is_terminated text_eq text_lt fnv1a32
no_error = refl

-- The file of the served VM has another hash.
other_hash : fnv1a32 (render (served_box ∷ [])) ≢ fnv1a32 (render (box ∷ []))
unfolding render host_lines eligible is_eligible sort_by insert_sorted is_terminated fnv1a32
other_hash = ground arith

refresh-current_example :
    (refresh short (ok (box ∷ [])) (ok tt) (run short new_writer calls)).1.file
    ≡ some (render (box ∷ []))
refresh-current_example =
    refresh-current short calls (box ∷ []) (ok tt) (λ h. absurd (cc h))
      ((λ h. refl), (tt, ((λ h. absurd (other_hash (cc h))), tt))) no_error

rewrite_stale_example :
    (t : State) × Reach tagged t (record {
      writer = new_writer;
      first = rendered (codes "old");
      second = rendered (codes "new");
    })
    × (t.first ≡ returned)
    × (t.second ≡ returned)
    × (t.writer.file ≡ some (codes "old"))
    × (rewrite tagged (codes "new") (ok tt) t.writer ≡ (ok tt, t.writer))
rewrite_stale_example =
    rewrite_stale tagged new_writer (codes "old") (codes "new") (λ h. cc h) (λ h. cc h)

abbrev base_bytes : Text
base_bytes = 1 ∷ 2 ∷ 3 ∷ []

abbrev diff_bytes : Text
diff_bytes = 0 ∷ 7 ∷ 0 ∷ []

abbrev memory_bytes : Text
memory_bytes = 1 ∷ 7 ∷ 3 ∷ []

-- A file of three bytes of which the middle one is data.
abbrev is_middle : ℕ → Bool
is_middle i = i == 1

abbrev next_data : ℕ → Option ℕ
next_data o = if ltb o 2 then some 1 else none

abbrev next_hole : ℕ → Option ℕ
next_hole d = some (if d == 1 then 2 else d)

middle-Seeks : Seeks next_data next_hole 3 is_middle
middle-Seeks = record {
  no_data = λ o h i k l. ground arith;
  at_data = λ o d h. ground arith;
  at_hole = λ d h t e. ground arith;
  always_hole = λ d h. (if d == 1 then 2 else d, refl);
}

middle_changed :
    (i : ℕ)
    → i < 3
    → get_elem? memory_bytes i
      ≡ (if is_middle i then get_elem? diff_bytes i else get_elem? base_bytes i)
middle_changed zero h = refl
middle_changed (suc zero) h = refl
middle_changed (suc (suc zero)) h = refl
middle_changed (suc (suc (suc i))) h = absurd (omega arith)

merge-extract_example :
    (rs : List SparseRegion) × (extract_sparse_regions next_data next_hole 3 ≡ some rs)
    × (merge_diff_memory base_bytes diff_bytes rs ≡ some memory_bytes)
merge-extract_example =
    merge-extract next_data next_hole 3 is_middle middle-Seeks base_bytes diff_bytes memory_bytes
      refl refl refl middle_changed
