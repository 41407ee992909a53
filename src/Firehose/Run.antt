-- ===== src/Firehose/Run.antt =====
-- `firehose_execute_ops` and `firehose_run` of src/firehose.c.
use qdl.Base.{
  ℕ, zero, suc, ◌+◌, Bool, true, false, Option, none, some, List, [], ◌∷◌, ◌++◌, Bytes, length,
  if◌then◌else◌,
}
use qdl.Vip.Generator.{Sha256}
use qdl.Firehose.{Env, Host}
use qdl.Firehose.Op.{
  OpType, op_none, op_configure, op_program, op_erase, op_read, op_patch, op_set_bootable, op_reset,
  op_get_sha256_digest, FirehoseOp,
}
use qdl.Firehose.Control.{
  firehose_erase, firehose_apply_patch, firehose_set_bootable, firehose_reset,
  firehose_getsha256digest, is_disk,
}
use qdl.Firehose.Program.{Files}
use qdl.Firehose.Flash.{firehose_program}
use qdl.Firehose.Fetch.{Fetched, firehose_read_op}
use qdl.Firehose.Configure.{firehose_detect_and_configure}

-- What the run calls besides the device: the files, `strtoul`, the files that reads go to, and
-- `gpt_resolve_deferrals` of src/gpt.c, on the operations before and behind the current one.
pub record Calls (G : Type 0) : Type 1 where
  pub sha : Sha256
  pub files : Files
  pub strtoul : Bytes → ℕ
  pub open_output : Option Bytes → Option (List (Option ℕ))
  pub gpt_resolve_deferrals :
      List FirehoseOp → List FirehoseOp → Host G → Bool × List FirehoseOp × List FirehoseOp × Host G
  pub rounds : ℕ

module _ {G : Type 0} (env : Env G) (calls : Calls G) where
  -- The operations that are done, those to come, and the host. `none` is for a loop that is still
  -- running; the flag is false at a negative result.
  abbrev pub Step : Type 0
  Step = Option (Bool × List FirehoseOp × List FirehoseOp × Host G)

  plain : List FirehoseOp → List FirehoseOp → Bool × Host G → Step
  plain past ops (ok, h) = some (ok, past, ops, h)

  maybe : List FirehoseOp → List FirehoseOp → Option (Bool × Host G) → Step
  maybe past ops none = none
  maybe past ops (some r) = plain past ops r

  resolved : List FirehoseOp → List FirehoseOp → Option (Bool × Host G) → Step
  resolved past ops none = none
  resolved past ops (some (false, h)) = some (false, past, ops, h)
  resolved past ops (some (true, h)) = some (calls.gpt_resolve_deferrals past ops h)

  read_done : List FirehoseOp → List FirehoseOp → Fetched env → Step
  read_done past ops none = none
  read_done past ops (some (ok, sink, h)) = some (ok, past, ops, h)

  -- the operation keeps the digest
  digest_done : List FirehoseOp → FirehoseOp → List FirehoseOp → Option Bytes × Host G → Step
  digest_done past op ops (none, h) = some (false, past ++ op ∷ [], ops, h)
  digest_done past op ops (some digest, h) =
      some (true, past ++ record op { digest = some digest } ∷ [], ops, h)

  count_patch : FirehoseOp → Bool × Host G → Bool × Host G
  count_patch op (false, h) = (false, h)
  count_patch op (true, h) =
      let counted = record h { stats = record h.stats { patches = h.stats.patches + 1 } } in
      (true, if is_disk op.filename then counted else h)

  -- the `switch` of `firehose_execute_ops`; `past` ends in the operation
  step_as : OpType → List FirehoseOp → FirehoseOp → List FirehoseOp → Host G → Step
  step_as op_configure past op ops h =
      resolved (past ++ op ∷ []) ops
        (firehose_detect_and_configure env calls.strtoul calls.rounds false op.storage_type 5 h)
  step_as op_program past op ops h =
      maybe (past ++ op ∷ []) ops (firehose_program env calls.sha calls.files op h)
  step_as op_erase past op ops h = plain (past ++ op ∷ []) ops (firehose_erase env op h)
  step_as op_read past op ops h =
      read_done (past ++ op ∷ []) ops (firehose_read_op env (calls.open_output op.filename) op h)
  step_as op_get_sha256_digest past op ops h =
      digest_done past op ops (firehose_getsha256digest env op h)
  step_as op_patch past op ops h =
      plain (past ++ op ∷ []) ops (count_patch op (firehose_apply_patch env op h))
  step_as op_set_bootable past op ops h =
      some (true, past ++ op ∷ [], ops, (firehose_set_bootable env op.partition h).1)
  step_as op_reset past op ops h = plain (past ++ op ∷ []) ops (firehose_reset env h)
  step_as op_none past op ops h = some (false, past ++ op ∷ [], ops, h)

  go_on : (List FirehoseOp → List FirehoseOp → Host G → Step) → Step → Step
  go_on next none = none
  go_on next (some (false, past, ops, h)) = some (false, past, ops, h)
  go_on next (some (true, past, ops, h)) = next past ops h

  -- the loop over the operations, one in each round
  execute : ℕ → List FirehoseOp → List FirehoseOp → Host G → Step
  execute rounds past [] h = some (true, past, [], h)
  execute zero past (op ∷ ops) h = none
  execute (suc rounds) past (op ∷ ops) h = go_on (execute rounds) (step_as op.op_type past op ops h)

  -- `firehose_execute_ops`
  unfoldable pub firehose_execute_ops : List FirehoseOp → Host G → Step
  unfolding execute go_on step_as count_patch digest_done read_done resolved maybe plain
  firehose_execute_ops ops h = execute (length ops) [] ops h

  -- `firehose_run`
  unfoldable pub firehose_run : List FirehoseOp → Host G → Step
  unfolding firehose_execute_ops
  firehose_run ops h = firehose_execute_ops ops (record h {
    stats = record {
      flashed = 0;
      skipped = 0;
      read = 0;
      erased = 0;
      patches = 0;
      bytes_written = 0;
    };
  })
