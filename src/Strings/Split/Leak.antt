-- ===== src/Strings/Split/Leak.antt =====
-- What the frees of a list of strings leave in the heap.
use yo_rha.Base.{ℕ, zero, suc, ◌≡◌, ◌≢◌, sym, ap, ◌∙◌, some, get_elem?}
use yo_rha.Base.Outcome.{ok, in_bounds, bind_ok}
use yo_rha.Heap.{AllocEntry, AllocArray, kfree}
use yo_rha.Heap.Invariant.{Live}
use yo_rha.Heap.Others.{kfree-keeps}
use yo_rha.Strings.Growing.{Growing}
use yo_rha.Strings.Split.{Text, free_first, free_string_list}

module _ (sl : Growing Text) (first : Text) (stored : get_elem? sl.contents 0 ≡ some first) (k : ℕ)
    (f : AllocEntry) (other : f.base_ptr ≢ first.block) where
  free_first-keeps :
      (left : ℕ) (a out : AllocArray)
      → free_first left a sl ≡ ok out
      → Live a.entries k f
      → Live out.entries k f
  unfolding free_first
  free_first-keeps zero a out e live =
      let same : a.entries ≡ out.entries = cc (e) in rw (sym same) live
  free_first-keeps (suc left) a out e live =
      let looked = bind_ok (in_bounds (get_elem? sl.contents 0)) _ out e in
      let here : first ≡ looked.0 = cc (looked.1, stored) in
      let freed = bind_ok (kfree a looked.0.block) _ out looked.2 in
      free_first-keeps left freed.0 out freed.2 (
        kfree-keeps a freed.0 looked.0.block k f freed.1 live
          (λ q. other (q ∙ ap (λ (s : Text). s.block) (sym here))))

  -- `free_string_list` frees no string but the first: every block in use but that of the first
  -- string and that of the list itself is in use behind it, those of the other strings among them.
  pub free_string_list-keeps :
      (a out : AllocArray)
      → f.base_ptr ≢ sl.block
      → free_string_list a sl ≡ ok out
      → Live a.entries k f
      → Live out.entries k f
  unfolding free_string_list
  free_string_list-keeps a out list e live =
      let freed = bind_ok (free_first sl.len a sl) _ out e in
      kfree-keeps freed.0 out sl.block k f freed.2 (free_first-keeps sl.len a freed.0 freed.1 live)
        list
