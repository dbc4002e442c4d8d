-- ===== src/Remote/Edit.antt =====
-- The queue edits of `command` in remote.go, after their checks: the cases append, move and remove.
pub mod Places
use harmonia_server.Prelude.{
  ℕ, suc, ◌+◌, ◌-◌, ◌&&◌, List, [], ◌∷◌, ◌++◌, String, ℤ, pos, negsuc, min, max, if◌then◌else◌, ltb,
  leb, ◌==◌, length, take, drop, get_or,
}
use harmonia_server.Remote.State.{RemoteSaved}
use harmonia_server.Remote.Shuffle.{reset_shuffle}

-- `append(q[:i], q[i+1:]...)`
unfoldable pub remove_at : ℕ → List String → List String
remove_at i q = take i q ++ drop (suc i) q

-- `append(append(q[:i], ids...), q[i:]...)`
unfoldable pub insert_at : ℕ → List String → List String → List String
insert_at i ids q = take i q ++ (ids ++ drop i q)

-- A position out of range means the end.
unfoldable pub append_position : ℤ → ℕ → ℕ
append_position (negsuc n) len = len
append_position (pos p) len = if ltb len p then len else p

unfoldable pub append_queue : ℤ → List String → RemoteSaved → RemoteSaved
unfolding append_position insert_at reset_shuffle
append_queue position ids s =
    let p = append_position position (length s.queue) in
    let t = record s {
      queue = insert_at p ids s.queue;
      index = if ltb 0 (length s.queue) && leb p s.index then s.index + length ids else s.index;
    } in
    if length s.queue == 0 then reset_shuffle t else t

-- The track at `from` is taken out, and put in at `to`.
unfoldable pub move_item : ℕ → ℕ → List String → List String
unfolding remove_at insert_at
move_item from to q = insert_at to (get_or q from "" ∷ []) (remove_at from q)

unfoldable pub moved_index : ℕ → ℕ → ℕ → ℕ
moved_index from to index =
    if index == from
    then to
    else (if ltb from index && leb index to
        then index - 1
        else (if ltb index from && leb to index then index + 1 else index))

unfoldable pub move_queue : ℕ → ℕ → RemoteSaved → RemoteSaved
unfolding move_item moved_index
move_queue from to s = record s {
  queue = move_item from to s.queue;
  index = moved_index from to s.index;
}

-- The part of remove that every removal makes.
unfoldable pub remove_queue : ℕ → RemoteSaved → RemoteSaved
unfolding remove_at
remove_queue i s = record s {
  queue = remove_at i s.queue;
  index = if ltb i s.index then s.index - 1 else s.index;
}

-- `min(r.saved.Index, max(0, len(r.saved.Queue)-1))`
unfoldable pub clamp_index : RemoteSaved → RemoteSaved
clamp_index s = record s { index = min s.index (max 0 (length s.queue - 1)) }
