-- ===== src/Moves/Store/Lock.antt =====
-- move-store.ts: the lock, over sequences of writes.
use sardeenz.Base.{
  same, All, String, ◌≡◌, refl, ◌∙◌, Bool, true, false, not, ◌&&◌, ◌||◌, Option, some, List, [],
  ◌∷◌, arith, string_key,
}
use sardeenz.Base.Dict
use sardeenz.Moves.Store.{
  finish, clear, try_acquire_lock, complete, update, release_lock, create,
  prune_completed_operations, MoveOperation, MoveStore, MoveUpdates,
}

-- The methods that write.
pub data Write : Type 0 where
  creates : MoveOperation → Write
  updates : String → MoveUpdates → Write
  completes : String → Bool → Option String → Write
  releases : String → Write
  clears : Write

unfoldable pub write : Write → MoveStore → MoveStore × Bool
write (creates op) s = create op s
write (updates move u) s = update move u s
write (completes move done err) s = (complete move done err s, true)
write (releases move) s = (release_lock move s, true)
write clears s = (clear s, true)

abbrev pub is_create : Write → Bool
is_create (creates op) = true
is_create _ = false

-- A sequence of writes, and whether a `create` among them went through.
unfoldable pub write_all : List Write → MoveStore → MoveStore × Bool
write_all [] s = (s, false)
write_all (w ∷ ws) s =
    let (s', ok) = write w s in
    let (s'', later) = write_all ws s' in (s'', (is_create w && ok) || later)

-- The write does not end the move.
abbrev pub spares : String → Write → Bool
spares move (completes m done err) = not (same move m)
spares move (releases m) = not (same move m)
spares move clears = false
spares move _ = true

pub active-prune_completed_operations :
    (s : MoveStore) → (prune_completed_operations s).active_move ≡ s.active_move
unfolding prune_completed_operations
active-prune_completed_operations s = ground arith

active-write :
    (w : Write) (s : MoveStore) (move : String)
    → s.active_move ≡ some move
    → spares move w ≡ true
    → ((write w s).0.active_move ≡ some move) × ((is_create w && (write w s).1) ≡ false)
unfolding write create update complete release_lock try_acquire_lock
active-write (creates op) s move h p = ground arith
active-write (updates m u) s move h p = ground arith
active-write (completes m done err) s move h p =
    let marked = record s { operations = Dict.modify m (finish done err) s.operations } in
    (active-prune_completed_operations (release_lock m marked) ∙ ground arith, refl)
active-write (releases m) s move h p = ground arith
active-write clears s move h p = cc

-- While a move is active and no write completes it, releases its lock or clears the store, it stays the
-- active one and no other move is created.
pub lock_excludes :
    (ws : List Write) (s : MoveStore) (move : String)
    → s.active_move ≡ some move
    → All (λ w. spares move w ≡ true) ws
    → ((write_all ws s).0.active_move ≡ some move) × ((write_all ws s).1 ≡ false)
unfolding write_all
lock_excludes [] s move h p = (h, refl)
lock_excludes (w ∷ ws) s move h p =
    let (a, c) = active-write w s move h p.0 in
    let rest = lock_excludes ws (write w s).0 move a p.1 in ground (arith, c, rest)
