-- ===== src/Mysql/States.antt =====
-- data/mysql/repository.go: GetUserStates and SaveUserState.
use globalmail.Prelude.{
  ◌≡◌, refl, Bool, ◌&&◌, Option, none, some, List, [], ◌∷◌, contains, Action, pure, ◌>>=◌, ok, ◌==◌,
  int_eq, pair_eq, ==_refl, arith, if◌then◌else◌,
}
use globalmail.Prelude.Int.{ℤ}
use globalmail.Prelude.Dict.{Dict, insert}
use globalmail.Types.{Error, UserGlobalMailState, deleted, is_deleted}
use globalmail.Mysql.Table.{Table, IsTable, Puts, or_row}
use globalmail.Mysql.Models.{UserGlobalMailStateModel}
use globalmail.Mysql.Mapper.{to_state_model, to_state}

-- The columns that SaveUserState assigns on a conflict.
pub data Column : Type 0 where
  server_id status claimed_loot_indexes claim_time delete_time version update_time : Column

abbrev set_column :
    UserGlobalMailStateModel → Column → UserGlobalMailStateModel → UserGlobalMailStateModel
set_column new server_id old = record old { server_id = new.server_id }
set_column new status old = record old { status = new.status }
set_column new claimed_loot_indexes old = record old {
  claimed_loot_indexes = new.claimed_loot_indexes;
}
set_column new claim_time old = record old { claim_time = new.claim_time }
set_column new delete_time old = record old { delete_time = new.delete_time }
set_column new version old = record old { version = new.version }
set_column new update_time old = record old { update_time = new.update_time }

-- CASE WHEN status = 'deleted' THEN column ELSE new value END
unfoldable pub preserve_deleted :
    UserGlobalMailStateModel → Column → UserGlobalMailStateModel → UserGlobalMailStateModel
preserve_deleted new c old = if is_deleted old.status then old else set_column new c old

-- The assignments in the order in which they stand in the statement. MySQL evaluates them from left
-- to right, each on the row as the ones before have left it.
unfoldable pub assign :
    UserGlobalMailStateModel → List Column → UserGlobalMailStateModel → UserGlobalMailStateModel
unfolding preserve_deleted
assign new [] old = old
assign new (c ∷ cs) old = assign new cs (preserve_deleted new c old)

-- The columns by name, the order in which gorm writes out a map of assignments.
abbrev pub by_name : List Column
by_name =
    claim_time ∷ claimed_loot_indexes ∷ delete_time ∷ server_id ∷ status ∷ update_time ∷ version
    ∷ []

unfoldable pub collect_states :
    List UserGlobalMailStateModel → Dict ℤ UserGlobalMailState → Dict ℤ UserGlobalMailState
collect_states [] states = states
collect_states (m ∷ ms) states = collect_states ms (insert m.global_mail_id (to_state m) states)

abbrev asked_for : ℤ → List ℤ → UserGlobalMailStateModel → Bool
asked_for role ids m = m.role_id == role && contains ids m.global_mail_id

module _ {D : Type 0} (t : Table D (ℤ × ℤ) UserGlobalMailStateModel) (order : List Column) where
  unfoldable pub get_user_states : ℤ → List ℤ → Action D Error (Dict ℤ UserGlobalMailState)
  unfolding collect_states contains
  get_user_states role [] = pure []
  get_user_states role (id ∷ ids) = do
    models ← t.select (asked_for role (id ∷ ids)) none
    pure (collect_states models [])

  unfoldable pub save_user_state : UserGlobalMailState → Action D Error (Unit {0})
  unfolding assign
  save_user_state state =
      t.create_or_update (to_state_model state) (assign (to_state_model state) order)

-- Once a row is deleted, no later assignment changes it, in whatever order the columns stand.
pub assign_deleted :
    (new old : UserGlobalMailStateModel) (cs : List Column)
    → old.status ≡ deleted
    → assign new cs old ≡ old
unfolding assign
assign_deleted new old [] h = refl
assign_deleted new old (c ∷ cs) h = ground (arith, assign_deleted new old cs h)

-- What a save leaves in the table: a deleted row as it was; of a row that this save deletes, the
-- version and the update time of before; else the new state, created when the old one was.
abbrev pub stored :
    UserGlobalMailStateModel → Option UserGlobalMailStateModel → UserGlobalMailStateModel
stored new none = new
stored new (some old) =
    if is_deleted old.status
    then old
    else if is_deleted new.status
    then record new {
      create_time = old.create_time;
      version = old.version;
      update_time = old.update_time;
    }
    else record new { create_time = old.create_time }

assign-by_name :
    (new old : UserGlobalMailStateModel)
    → old.role_id ≡ new.role_id
    → old.global_mail_id ≡ new.global_mail_id
    → assign new by_name old ≡ stored new (some old)
unfolding assign
assign-by_name new old r m = ground arith

module _ {D : Type 0} (t : Table D (ℤ × ℤ) UserGlobalMailStateModel) (law : IsTable t)
    (by_role_and_mail : (m : UserGlobalMailStateModel)
      → t.key m ≡ (m.role_id, m.global_mail_id)) where
  or_row-stored :
      (new : UserGlobalMailStateModel) (d : D) (o : Option UserGlobalMailStateModel)
      → t.rows d (t.key new) ≡ o
      → or_row new (assign new by_name) o ≡ stored new o
  or_row-stored new d none h = refl
  or_row-stored new d (some old) h = ground (
    arith,
    law.keyed (t.key new) d old h,
    by_role_and_mail new,
    by_role_and_mail old,
    assign-by_name new old,
  )

  -- A save that succeeds writes the row of its player and mail, as `stored` says and as the columns
  -- keep it, and no other row. The columns are assigned in the order of their names.
  pub save_user_state-stored :
      (state : UserGlobalMailState) (d d' : D)
      → save_user_state t by_name state d ≡ (ok tt, d')
      → Puts t
          (state.role_id, state.global_mail_id)
          (some (
            t.kept
              (stored (to_state_model state) (t.rows d (state.role_id, state.global_mail_id)))))
          d
          d'
  unfolding save_user_state to_state_model
  save_user_state-stored state d d' h j =
      let new = to_state_model state in
      ground (
        arith,
        by_role_and_mail new,
        law.create_or_update_ok new (assign new by_name) d d' h j,
        or_row-stored new d (t.rows d (t.key new)) refl,
      )

  -- In whatever order the columns stand, a save never brings a deleted mail back, nor changes it.
  pub save_user_state-deleted :
      (order : List Column) (state : UserGlobalMailState) (old : UserGlobalMailStateModel)
      (d d' : D)
      → t.rows d (state.role_id, state.global_mail_id) ≡ some old
      → old.status ≡ deleted
      → save_user_state t order state d ≡ (ok tt, d')
      → t.rows d' (state.role_id, state.global_mail_id) ≡ some old
  unfolding save_user_state to_state_model
  save_user_state-deleted order state old d d' r gone h =
      let new = to_state_model state in
      ground (
        arith,
        by_role_and_mail new,
        ==_refl {A = ℤ × ℤ} (state.role_id, state.global_mail_id),
        law.create_or_update_ok new (assign new order) d d' h (state.role_id, state.global_mail_id),
        assign_deleted new old order gone,
        law.kept_row (state.role_id, state.global_mail_id) d old r,
      )
