-- ===== src/Tests/Runs.antt =====
-- The theorems on runs, applied to the machine.
use cnftctl.Base.{
  ℕ, List, [], ◌∷◌, ◌++◌, Bool, true, false, Option, none, some, Text, codes, eqb, Result, ok, err,
  ◌≡◌, refl,
}
use cnftctl.Host.{
  Call, OsError, Env, Trace, FileInfo, CommandResult, DirEntry, read_link, read_file, run,
}
use cnftctl.Host.Guard.{IsGuarded}
use cnftctl.Durable.{durable_write}
use cnftctl.Durable.Flushed.{durable_write-IsGuarded, NeedFlushed}
use cnftctl.Apply.Model.{Codec}
use cnftctl.Apply.Run.{apply}
use cnftctl.Apply.Armed.{NeedArmed}
use cnftctl.Apply.Order.{apply-IsGuarded}
use cnftctl.Base.{refl}
use cnftctl.Base.{◌↔◌}
use cnftctl.Host.{◌>>=◌, give}
use cnftctl.Apply.Armed
use cnftctl.Host.Trace.{Ext}
use cnftctl.Apply.Dry.{IsRead, dry_run-reads}
use cnftctl.Apply.Restored.{IsRestored, restore_previous-IsRestored}
use cnftctl.Apply.Confirmed.{IsConfirmed, confirmed, confirm_read-IsConfirmed, rollback-IsRecorded}
use cnftctl.Apply.Reconciled.{Fine, each, after, roll_back_all-Fine}
use cnftctl.Base
use cnftctl.Host
use cnftctl.Systemd
use cnftctl.Apply.Rollback
use cnftctl.Apply.Run
use cnftctl.Apply.Store
use cnftctl.Nft
use cnftctl.Durable
use cnftctl.Tests.Machine.{old_generation, new_generation, update, machine, codec, options}

apply-IsGuarded_example :
    IsGuarded
      (NeedArmed (codec old_generation) (codes "/mnt"))
      (apply (machine old_generation) (codec old_generation) (options false) []).1
apply-IsGuarded_example =
    apply-IsGuarded (machine old_generation) (codec old_generation) (options false)

durable_write-IsGuarded_example :
    IsGuarded
      (NeedFlushed (codes "text"))
      (durable_write (machine old_generation) (codes "/a/b") (codes "text") 0o600 []).1
durable_write-IsGuarded_example =
    durable_write-IsGuarded (machine old_generation) (codes "/a/b") (codes "text") 0o600

dry_run-reads_example :
    Ext IsRead [] (apply (machine old_generation) (codec old_generation) (options true) []).1
dry_run-reads_example =
    dry_run-reads (machine old_generation) (codec old_generation) (options true) [] refl

abbrev here : Env
here = machine old_generation

abbrev stored : Codec
stored = codec old_generation

abbrev slash_mnt : Text
slash_mnt = codes "/mnt"

abbrev update_path : Text
update_path = Store.transaction_path slash_mnt update.id

restored :
    Rollback.restore_previous here stored slash_mnt update []
    ≡ (ok (tt {0}), (Rollback.restore_previous here stored slash_mnt update []).1)
unfolding Rollback.restore_previous Rollback.update_rollback_stage Rollback.stage_of
    Rollback.stage_marked Rollback.stage_live Rollback.is_state Store.active_generation
    Store.selected Store.read_ownership Durable.read_json Nft.list_table Host.ask_text Host.ask_info
    Host.run_command Base.eqb Base.byte_len Base.base Base.base_of Base.drop_slashes
    Base.take_element Base.drop_element Base.find_references Base.starts_reference Base.is_hex
    Base.is_hex_text Base.has_prefix
restored = refl

restore_previous-IsRestored_example :
    IsRestored here stored slash_mnt update
      (Rollback.restore_previous here stored slash_mnt update []).1
restore_previous-IsRestored_example =
    restore_previous-IsRestored here stored slash_mnt update []
      (Rollback.restore_previous here stored slash_mnt update []).1 restored

-- Where the new generation is the one in place.
abbrev there : Env
there = machine new_generation

abbrev kept : Codec
kept = codec new_generation

accepted :
    (Run.confirm_read there kept slash_mnt update_path update []).0
    ≡ ok (confirmed there kept slash_mnt update)
unfolding Run.confirm_read Store.verify_activated Store.verify_transaction_ownership
    Store.active_generation Store.selected Store.read_ownership Store.write_transaction Store.owns
    Store.has_generation_marker Systemd.cancel_rollback Systemd.rollback_timer Durable.read_json
    Durable.write_json Durable.durable_write Durable.mkdir_safe Durable.fill_temp Durable.sync_dir
    Nft.list_table Host.ask_text Host.ask_info Host.run_command Host.perform Base.eqb Base.byte_len
    Base.base Base.base_of Base.drop_slashes Base.take_element Base.drop_element Base.contains
    Base.is_hex Base.is_hex_text Base.has_prefix
accepted = refl

confirm_read-IsConfirmed_example :
    (update.rolled_back ≡ false)
    × IsConfirmed there kept slash_mnt update
        (confirmed there kept slash_mnt update)
        (Run.confirm_read there kept slash_mnt update_path update []).1
confirm_read-IsConfirmed_example =
    confirm_read-IsConfirmed there kept slash_mnt update (confirmed there kept slash_mnt update) []
      refl accepted

abbrev after_reading : Trace
after_reading = (Store.read_transaction here stored update_path []).1

was_read : Store.read_transaction here stored update_path [] ≡ (ok update, after_reading)
unfolding Store.read_transaction Durable.read_json Durable.rooted Host.ask_text Host.ask_info
    Base.eqb Base.is_hex Base.is_hex_text Base.base Base.base_of Base.drop_slashes Base.take_element
    Base.drop_element Base.join_path Base.clean Base.clean_from Base.is_rooted Base.join Base.split
    Base.split_from
was_read = refl

abbrev after_rollback : Trace
after_rollback = (Rollback.rollback here stored slash_mnt update_path []).1

rolled_back : Rollback.rollback here stored slash_mnt update_path [] ≡ (ok (tt {0}), after_rollback)
unfolding Rollback.rollback Rollback.rollback_open Rollback.undo Rollback.mutations_possible
    Rollback.reconcile_previous Rollback.restore_previous Rollback.update_rollback_stage
    Rollback.stage_of Rollback.stage_marked Rollback.stage_live Rollback.is_state
    Store.active_generation Store.selected Store.read_ownership Store.read_transaction
    Store.write_transaction Store.generation_ddns_desired Systemd.set_firewall_enabled
    Systemd.reconcile_ddns_timer Durable.read_json Durable.rooted Durable.write_json
    Durable.durable_write Durable.mkdir_safe Durable.fill_temp Durable.sync_dir Nft.list_table
    Host.ask_text Host.ask_info Host.run_command Host.perform Base.eqb Base.byte_len Base.base
    Base.base_of Base.drop_slashes Base.take_element Base.drop_element Base.find_references
    Base.starts_reference Base.is_hex Base.is_hex_text Base.has_prefix Base.join_path Base.clean
    Base.clean_from Base.is_rooted Base.join Base.split Base.split_from
rolled_back = refl

rollback-IsRecorded_example :
    Armed.IsRecorded stored slash_mnt (Rollback.closed here stored update) after_rollback
rollback-IsRecorded_example =
    rollback-IsRecorded here stored slash_mnt update [] after_reading after_rollback was_read refl
      refl rolled_back

roll_back_all-Fine_example :
    (Run.roll_back_all here stored slash_mnt (update ∷ update ∷ []) [] ≡ (
      ok (each here stored slash_mnt (update ∷ update ∷ []) []),
      after here stored slash_mnt (update ∷ update ∷ []) [],
    ))
    × (((Run.roll_back_all here stored slash_mnt (update ∷ update ∷ [])
              >>= (λ rs. give (Rollback.join_all rs)))
            []).0
          ≡ ok (tt {0})
        ↔ Fine (each here stored slash_mnt (update ∷ update ∷ []) []))
roll_back_all-Fine_example = roll_back_all-Fine here stored slash_mnt (update ∷ update ∷ []) []
