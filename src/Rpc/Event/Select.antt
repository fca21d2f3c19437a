-- ===== src/Rpc/Event/Select.antt =====
-- api/rpc/event.go: the selection as a set, and what may replace an event.
use gridwell.Base.{
  ◌≡◌, refl, ap, sym, ◌∙◌, true, not, ◌&&◌, ◌||◌, List, [], ◌∷◌, ◌++◌, if◌then◌else◌, Bytes,
  is_empty, contains, bytes-Eq, sorted, compact, delete_func, arith, is_ascending, sorted-is_sorted,
  compact-is_ascending, contains-sorted, contains-compact, contains-delete_func,
}
use gridwell.Rpc.Event.{apply_select}

contains-append :
    (id : Bytes) (ks js : List Bytes) → contains id (ks ++ js) ≡ (contains id ks || contains id js)
unfolding contains
contains-append id [] js = refl
contains-append id (k ∷ ks) js = ground (arith, contains-append id ks js)

-- After a select a tile is in the set exactly if it was in it or was added, and was not removed; the
-- set is strictly ascending, so it holds each id once.
pub apply_select-contains :
    (set add remove : List Bytes) (id : Bytes)
    → (contains id (apply_select set add remove)
        ≡ ((contains id set || contains id add) && not (contains id remove)))
      × (is_ascending (apply_select set add remove) ≡ true)
unfolding apply_select
apply_select-contains set add remove id =
    one (delete_func (λ k. contains k remove) (set ++ add)) refl
  where
    member :
        (out : List Bytes)
        → delete_func (λ k. contains k remove) (set ++ add) ≡ out
        → contains id out ≡ ((contains id set || contains id add) && not (contains id remove))
    member out e =
        ap (contains id) (sym e)
        ∙ contains-delete_func id (λ k. contains k remove) (set ++ add)
        ∙ ground (arith, contains-append id set add)

    one :
        (out : List Bytes)
        → delete_func (λ k. contains k remove) (set ++ add) ≡ out
        → (contains id (if is_empty out then [] else compact (sorted out))
            ≡ ((contains id set || contains id add) && not (contains id remove)))
          × (is_ascending (if is_empty out then [] else compact (sorted out)) ≡ true)
    one [] e = (member [] e, refl)
    one (k ∷ ks) e = (
      contains-compact id (sorted (k ∷ ks)) ∙ contains-sorted id (k ∷ ks) ∙ member (k ∷ ks) e,
      compact-is_ascending (sorted (k ∷ ks)) (sorted-is_sorted (k ∷ ks)),
    )
