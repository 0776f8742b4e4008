-- ===== src/Secrets/History.antt =====
-- Any sequence of `put`, `get`, `patch`, `delete` and `prune` calls of
-- crates/sirr-server/src/store/db.rs, as the store serialises them.
use sirr.Prelude.{ℕ, ℤ, Bool, Option, List, [], ◌∷◌, arith}
use sirr.Text.{Bytes}
use sirr.Database.{Env, Db, Store}
use sirr.Secrets.{get, put, patch, delete}
use sirr.Secrets.Frames.{IsWellFormed, wf-IsLocal, get-local, put-local, patch-local, delete-local}
use sirr.Secrets.Scan.{prune}
use sirr.Secrets.Pruning.{prune_lem}

-- A call with its arguments, the clock and the nonce it draws.
pub data Call : Type 0 where
  get_call : ℤ → Bytes → Call
  put_call : ℤ → Bytes → Bytes → Bytes → Option ℕ → Option ℕ → Bool → Option Bytes → Call
  patch_call : ℤ → Bytes → Bytes → Option Bytes → Option ℕ → Option ℕ → Call
  delete_call : Bytes → Call
  prune_call : ℤ → Call

module _ (env : Env) (store : Store) where
  unfoldable pub apply : Call → Db env → Db env
  apply (get_call now k) db = (get env store now k db).1
  apply (put_call now nonce k text ttl limit delete_flag hook) db =
      (put env store now nonce k text ttl limit delete_flag hook db).1
  apply (patch_call now nonce k v m ttl) db = (patch env store now nonce k v m ttl db).1
  apply (delete_call k) db = (delete env k db).1
  apply (prune_call now) db = (prune env now db).1

  unfoldable pub run : List Call → Db env → Db env
  unfolding apply
  run [] db = db
  run (c ∷ calls) db = run calls (apply c db)

pub prune-IsWellFormed :
    (env : Env) (now : ℤ) (db : Db env)
    → IsWellFormed env db.secrets
    → IsWellFormed env (prune env now db).1.secrets
prune-IsWellFormed env now db h =
    let (ks, e, members, kept) = prune_lem env now db h in
    record { at_key = λ k b f. h.at_key k b (ground (arith, kept k, f)) }

pub apply-IsWellFormed :
    (env : Env) (store : Store) (c : Call) (db : Db env)
    → IsWellFormed env db.secrets
    → IsWellFormed env (apply env store c db).secrets
unfolding apply
apply-IsWellFormed env store (get_call now k) db h =
    get-local env store k db (IsWellFormed env) (wf-IsLocal env k db.secrets h) now
apply-IsWellFormed env store (put_call now nonce k text ttl limit delete_flag hook) db h =
    put-local env store k db (IsWellFormed env) (wf-IsLocal env k db.secrets h) now nonce text ttl
      limit delete_flag hook
apply-IsWellFormed env store (patch_call now nonce k v m ttl) db h =
    patch-local env store k db (IsWellFormed env) (wf-IsLocal env k db.secrets h) now nonce v m ttl
apply-IsWellFormed env store (delete_call k) db h =
    delete-local env store k db (IsWellFormed env) (wf-IsLocal env k db.secrets h)
apply-IsWellFormed env store (prune_call now) db h = prune-IsWellFormed env now db h
