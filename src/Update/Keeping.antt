-- ===== src/Update/Keeping.antt =====
-- What a call of `commit` may change, and that activation and rollback keep the stored states sound,
-- whichever system call fails.
use tos_ai.Prelude.{
  Bool-cases, Option, arith, inl, inr, none, not, ok, some, subst, sym, true, ◌&&◌, ◌||◌, ◌≡◌, ◌⊎◌,
}
use tos_ai.Prelude.Exec.{◌>>=◌}
use tos_ai.Prelude.Text.{Bytes}
use tos_ai.Update.Disk.{File, Place, WriteFaults, private_mode, write_atomic}
use tos_ai.Update.Invariant.{IsSound, activated-IsSound, rolled_back-IsSound}
use tos_ai.Update.Manager.{activate_pending, rollback, rolled_back}
use tos_ai.Update.Slots.{PersistentState, activated, slot_eq, valid_slot, validate_state}
use tos_ai.Update.Store.{Json, Manager, StoreFaults, commit, store_state, write_state}

module _ (json : Json) where
  pub record IsRoundTrip : Type 0 where
    pub state :
        (s : PersistentState)
        → validate_state s ≡ ok tt
        → json.decode_state (json.encode_state s) ≡ some s

  -- What the state file holds, if it decodes, is sound.
  abbrev pub IsDurable : Option File → Type 0
  IsDurable none = Unit {0}
  IsDurable (some f) = (s : PersistentState) → json.decode_state f.content ≡ some s → IsSound s

  pub record IsConsistent (m : Manager) : Type 0 where
    pub memory : IsSound m.state
    pub durable : IsDurable m.disk.state_file.current

-- The file that `writeAtomic` leaves.
abbrev pub written : Bytes → File
written value = record { regular = true; perm = private_mode; owned = true; content = value }

write_atomic-current :
    (io : WriteFaults) (value : Bytes) (p : Place)
    → ((write_atomic io value private_mode p).1.current ≡ p.current)
      ⊎ ((write_atomic io value private_mode p).1.current ≡ some (written value))
unfolding write_atomic
write_atomic-current io value p = ground arith

-- What a call of `commit` may change.
pub record IsCommit (json : Json) (next : PersistentState) (m m' : Manager) : Type 0 where
  pub memory : (m'.state ≡ m.state) ⊎ (m'.state ≡ next)
  pub file :
      (m'.disk.state_file.current ≡ m.disk.state_file.current)
      ⊎ (m'.disk.state_file.current ≡ some (written (json.encode_state next)))
  pub files_a : m'.disk.files_a ≡ m.disk.files_a
  pub files_b : m'.disk.files_b ≡ m.disk.files_b
  pub target : m'.target ≡ m.target
  pub public_keys : m'.public_keys ≡ m.public_keys

pub store_state-IsCommit :
    (json : Json) (io : StoreFaults) (next : PersistentState) (m : Manager)
    → IsCommit json next m (store_state json io next m).1
unfolding store_state write_state ◌>>=◌
store_state-IsCommit json io next m =
    ground (arith, write_atomic-current io.writing (json.encode_state next) m.disk.state_file)

pub commit-IsCommit :
    (json : Json) (io : StoreFaults) (next : PersistentState) (m : Manager)
    → IsCommit json next m (commit json io next m).1
unfolding commit store_state write_state ◌>>=◌
commit-IsCommit json io next m =
    ground (arith, write_atomic-current io.writing (json.encode_state next) m.disk.state_file)

module _ (json : Json) (law : IsRoundTrip json) where
  decoded-IsSound :
      (s t : PersistentState)
      → IsSound s
      → json.decode_state (json.encode_state s) ≡ some t
      → IsSound t
  decoded-IsSound s t h e = subst IsSound (ground (arith, law.state s h.valid)) h

  current-IsDurable :
      (next : PersistentState) (old new : Option File)
      → IsSound next
      → IsDurable json old
      → (new ≡ old) ⊎ (new ≡ some (written (json.encode_state next)))
      → IsDurable json new
  current-IsDurable next old new sound h (inl same) = subst (IsDurable json) (sym same) h
  current-IsDurable next old new sound h (inr stored) =
      subst (IsDurable json) (sym stored) (λ t e. decoded-IsSound next t sound e)

  memory-IsSound :
      (next s s' : PersistentState) → IsSound next → IsSound s → (s' ≡ s) ⊎ (s' ≡ next) → IsSound s'
  memory-IsSound next s s' sound h (inl same) = subst IsSound (sym same) h
  memory-IsSound next s s' sound h (inr stored) = subst IsSound (sym stored) sound

  pub IsCommit-IsConsistent :
      (next : PersistentState) (m m' : Manager)
      → IsCommit json next m m'
      → IsConsistent json m
      → IsSound next
      → IsConsistent json m'
  IsCommit-IsConsistent next m m' c h sound = record {
    memory = memory-IsSound next m.state _ sound h.memory c.memory;
    durable = current-IsDurable next m.disk.state_file.current _ sound h.durable c.file;
  }

  pub commit-IsConsistent :
      (io : StoreFaults) (next : PersistentState) (m : Manager)
      → IsConsistent json m
      → IsSound next
      → IsConsistent json (commit json io next m).1
  commit-IsConsistent io next m h sound =
      IsCommit-IsConsistent next m _ (commit-IsCommit json io next m) h sound

  pub activate_pending-IsConsistent :
      (io : StoreFaults) (m : Manager)
      → IsConsistent json m
      → IsConsistent json (activate_pending json io m).1
  unfolding activate_pending ◌>>=◌
  activate_pending-IsConsistent io m h =
      elim (Bool-cases (m.closed || not (valid_slot m.state.pending) || m.state.awaiting_health)) [
        | inl refused ↦ rw refused h
        | inr ready ↦ rw ready (
            commit-IsConsistent io (activated m.state) m h
              (activated-IsSound m.state h.memory (ground arith) (ground arith)))
      ]

  pub rollback-IsConsistent :
      (io : StoreFaults) (m : Manager)
      → IsConsistent json m
      → IsConsistent json (rollback json io m).1
  unfolding rollback ◌>>=◌
  rollback-IsConsistent io m h =
      elim (Bool-cases (
        m.closed
        || not (valid_slot m.state.known_good)
        || not m.state.awaiting_health && slot_eq m.state.active m.state.known_good)) [
          | inl refused ↦ rw refused h
          | inr ready ↦ rw ready (
              commit-IsConsistent io (rolled_back m.state) m h
                (rolled_back-IsSound m.state h.memory (ground arith)))
        ]
