-- ===== src/Firehose/Provision.antt =====
-- UFS provisioning: the tags and `firehose_provision` of src/firehose.c, and
-- `ufs_provisioning_execute` of src/ufs.c.
use qdl.Base.{ℕ, zero, Bool, true, false, Option, none, some, List, [], ◌∷◌, Bytes, if◌then◌else◌}
use qdl.Io.{enodev}
use qdl.Firehose.{Tag, d, new_child, ufs, Env, Host}
use qdl.Firehose.Receive.{Reply, error, code}
use qdl.Firehose.Send.{generic_read, firehose_write}
use qdl.Firehose.Op.{set_string, set_slot, set_if, request}
use qdl.Firehose.Control.{set_all, of_bool, firehose_reset}
use qdl.Firehose.Configure.{firehose_detect_and_configure}

-- `struct ufs_common`
pub record UfsCommon : Type 0 where
  pub number_lu : ℕ
  pub boot_enable : Bool
  pub descr_access_en : Bool
  pub init_power_mode : ℕ
  pub high_priority_lun : ℕ
  pub secure_removal_type : ℕ
  pub init_active_icc_level : ℕ
  pub periodic_rtc_update : ℕ
  pub config_descr_lock : Bool
  pub wb : Bool
  pub write_booster_preserve : Bool
  pub write_booster_type : Bool
  pub shared_wb_buffer_size_in_kb : ℕ

-- `struct ufs_body`
pub record UfsBody : Type 0 where
  pub lu_num : ℕ
  pub lu_enable : Bool
  pub boot_lun_id : ℕ
  pub size_in_kb : ℕ
  pub data_reliability : ℕ
  pub lu_write_protect : ℕ
  pub memory_type : ℕ
  pub logical_block_size : ℕ
  pub provisioning_type : ℕ
  pub context_capabilities : ℕ
  pub desc : Option Bytes

-- `struct ufs_provisioning` once it is loaded, with the field of `struct ufs_epilogue`
pub record UfsProvisioning : Type 0 where
  pub common : UfsCommon
  pub bodies : List UfsBody
  pub lun_to_grow : ℕ

-- A result of a tag: 0, a positive number, or a negative one.
pub data Verdict : Type 0 where
  ok device_reset failure : Verdict

module _ {G : Type 0} (env : Env G) where
  verdict : Bool × Host G → Verdict × Host G
  verdict (true, h) = (ok, h)
  verdict (false, h) = (failure, h)

  common_tag : Host G → UfsCommon → Tag
  common_tag h c =
      let node = set_slot h (
        set_all (new_child "ufs") (
          ("bNumberLU", d c.number_lu)
          ∷ ("bBootEnable", d (of_bool c.boot_enable))
          ∷ ("bDescrAccessEn", d (of_bool c.descr_access_en))
          ∷ ("bInitPowerMode", d c.init_power_mode)
          ∷ ("bHighPriorityLUN", d c.high_priority_lun)
          ∷ ("bSecureRemovalType", d c.secure_removal_type)
          ∷ ("bInitActiveICCLevel", d c.init_active_icc_level)
          ∷ ("wPeriodicRTCUpdate", d c.periodic_rtc_update)
          ∷ ("bConfigDescrLock", d (of_bool c.config_descr_lock))
          ∷ [])) in
      set_if c.wb
        (set_all node (
          ("bWriteBoosterBufferPreserveUserSpaceEn", d (of_bool c.write_booster_preserve))
          ∷ ("bWriteBoosterBufferType", d (of_bool c.write_booster_type))
          ∷ ("shared_wb_buffer_size_in_kb", d c.shared_wb_buffer_size_in_kb)
          ∷ []))
        node

  -- `firehose_apply_ufs_common`, with `firehose_send_single_tag`
  unfoldable pub firehose_apply_ufs_common : UfsCommon → Host G → Verdict × Host G
  unfolding common_tag verdict request
  firehose_apply_ufs_common c h = verdict (request env (common_tag h c) 5000 h)

  body_tag : Host G → UfsBody → Tag
  body_tag h b =
      set_string b.desc
        (set_slot h (
          set_all (new_child "ufs") (
            ("LUNum", d b.lu_num)
            ∷ ("bLUEnable", d (of_bool b.lu_enable))
            ∷ ("bBootLunID", d b.boot_lun_id)
            ∷ ("size_in_kb", d b.size_in_kb)
            ∷ ("bDataReliability", d b.data_reliability)
            ∷ ("bLUWriteProtect", d b.lu_write_protect)
            ∷ ("bMemoryType", d b.memory_type)
            ∷ ("bLogicalBlockSize", d b.logical_block_size)
            ∷ ("bProvisioningType", d b.provisioning_type)
            ∷ ("wContextCapabilities", d b.context_capabilities)
            ∷ [])))
        "desc"

  -- `firehose_apply_ufs_body`
  unfoldable pub firehose_apply_ufs_body : UfsBody → Host G → Verdict × Host G
  unfolding body_tag verdict request
  firehose_apply_ufs_body b h = verdict (request env (body_tag h b) 5000 h)

  epilogue_tag : Host G → ℕ → Bool → Tag
  epilogue_tag h lun_to_grow commit = set_slot h (
      set_all (new_child "ufs")
        (("LUNtoGrow", d lun_to_grow) ∷ ("commit", d (of_bool commit)) ∷ []))

  -- A device that is gone behind a commit has taken it and reset itself.
  epilogue_verdict : Bool → Reply → Verdict
  epilogue_verdict commit (code zero) = ok
  epilogue_verdict true (error enodev) = device_reset
  epilogue_verdict commit r = failure

  epilogue_read : Bool → Bool × Host G → Verdict × Host G
  epilogue_read commit (false, h) = (failure, h)
  epilogue_read commit (true, h) =
      let (r, h') = generic_read env (if commit then 120000 else 5000) h in
      (epilogue_verdict commit r, h')

  -- `firehose_apply_ufs_epilogue`
  unfoldable pub firehose_apply_ufs_epilogue : ℕ → Bool → Host G → Verdict × Host G
  unfolding epilogue_tag epilogue_read epilogue_verdict
  firehose_apply_ufs_epilogue lun commit h =
      epilogue_read commit (firehose_write env (epilogue_tag h lun commit) h)

  -- A step behind another one: it is taken if that one's result is 0.
  unfoldable pub and_then : (Host G → Verdict × Host G) → Verdict × Host G → Verdict × Host G
  and_then next (ok, h) = next h
  and_then next (v, h) = (v, h)

  unfoldable pub apply_bodies : List UfsBody → Host G → Verdict × Host G
  unfolding firehose_apply_ufs_body and_then
  apply_bodies [] h = (ok, h)
  apply_bodies (b ∷ bs) h = and_then (apply_bodies bs) (firehose_apply_ufs_body b h)

  -- one pass over a description, to check it or to commit it
  unfoldable pub pass : UfsProvisioning → Bool → Host G → Verdict × Host G
  unfolding firehose_apply_ufs_common firehose_apply_ufs_epilogue apply_bodies
  pass p commit h =
      and_then (firehose_apply_ufs_epilogue p.lun_to_grow commit)
        (and_then (apply_bodies p.bodies) (firehose_apply_ufs_common p.common h))

  -- `ufs_provisioning_execute`
  unfoldable pub ufs_provisioning_execute : UfsProvisioning → Host G → Verdict × Host G
  unfolding pass
  ufs_provisioning_execute p h = and_then (pass p true) (pass p false h)

  reset_unless : Bool → Verdict × Host G → Bool × Host G
  reset_unless skip_reset (device_reset, h) = (true, h)
  reset_unless skip_reset (ok, h) = (true, if skip_reset then h else (firehose_reset env h).1)
  reset_unless skip_reset (failure, h) = (false, if skip_reset then h else (firehose_reset env h).1)

  provision_with : UfsProvisioning → Bool → Option (Bool × Host G) → Option (Bool × Host G)
  provision_with p skip_reset none = none
  provision_with p skip_reset (some (false, h)) = some (false, h)
  provision_with p skip_reset (some (true, h)) =
      some (reset_unless skip_reset (ufs_provisioning_execute p h))

  -- `firehose_provision`, with the rounds for the handshake
  unfoldable pub firehose_provision :
      (Bytes → ℕ) → ℕ → UfsProvisioning → Bool → Host G → Option (Bool × Host G)
  unfolding provision_with reset_unless ufs_provisioning_execute
  firehose_provision strtoul rounds p skip_reset h =
      provision_with p skip_reset (firehose_detect_and_configure env strtoul rounds true ufs 5 h)
