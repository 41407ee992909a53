-- ===== src/Firehose/Stream/Frames.antt =====
-- The frames of `firehose_stream_out` of src/firehose.c, among the tables that go between them.
use qdl.Base.{
  ℕ, ◌≡◌, refl, sym, subst, ◌∙◌, append-nil, append_assoc, Bool, false, List, [], ◌∷◌, ◌++◌, Bytes,
  take,
}
use qdl.Io.{Tx, wrote, refused}
use qdl.Io.Keeps.{keep_qdl_read}
use qdl.Vip.Transfer.{VipTransferData, vip_disabled}
use qdl.Vip.Transfer.Writes.{IsTable}
use qdl.Firehose.{
  XmlNode, Event, arrives, silence, unplugged, broken, Wire, Env, Host, tables, device_read,
  device_push_back, wire_read, wire_write, read_events, read_event, write_as,
}
use qdl.Firehose.Message.{firehose_check_vip_marker, check_vip_marker-cases}
use qdl.Firehose.Send.{firehose_vip_send_table}
use qdl.Firehose.Send.Keeps.{KeptTables, keep_send_table, send_table-disabled}

-- Writes that lead from one list of what was sent to a longer one, each of bytes with `T`.
pub data Later (T : Bytes → Type 0) : List Bytes → List Bytes → Type 0 where
  now : {s : List Bytes} → Later T s s
  then_sent : {s t : List Bytes} (b : Bytes) → T b → Later T s t → Later T s (t ++ b ∷ [])

-- The frames are sent in this order between two points in time, and no other writes between them but
-- of bytes with `T`.
pub data Within (T : Bytes → Type 0) : List Bytes → List Bytes → List Bytes → Type 0 where
  done : {s : List Bytes} → Within T [] s s
  other : {fs s t : List Bytes} (b : Bytes) → T b → Within T fs (s ++ b ∷ []) t → Within T fs s t
  frame : {fs s t : List Bytes} {f : Bytes} → Within T fs (s ++ f ∷ []) t → Within T (f ∷ fs) s t

pub Later-Within :
    {T : Bytes → Type 0} {fs s t u : List Bytes} → Later T s t → Within T fs t u → Within T fs s u
Later-Within now w = w
Later-Within (then_sent b p l) w = Later-Within l (other b p w)

-- Where nothing else is sent, what was sent is the frames.
pub Within-nothing : {fs s t : List Bytes} → Within (λ b. ⊥) fs s t → t ≡ s ++ fs
Within-nothing {s = s} done = sym (append-nil s)
Within-nothing (other b p w) = absurd p
Within-nothing {s = s} (frame {fs = fs} {f = f} w) = Within-nothing w ∙ append_assoc s (f ∷ []) fs

-- A part of what a table's file holds.
pub record IsTablePart {G : Type 0} (env : Env G) (bytes : Bytes) : Type 0 where
  pub whole : Bytes
  pub size : ℕ
  pub table_lem : IsTable (tables env) whole
  pub part_lem : bytes ≡ take size whole

-- What reading messages and sending tables changes of no host: the payload size and the dry run. What
-- was sent only grows, by bytes with `T`, and the state of the transfer has `V`.
pub record Carries {G : Type 0} (T : Bytes → Type 0) (V : VipTransferData → Type 0) (h h' : Host G)
    : Type 0 where
  pub payload : h'.max_payload_size ≡ h.max_payload_size
  pub generator_lem : h'.generator ≡ h.generator
  pub later : Later T h.wire.sent h'.wire.sent
  pub vip_lem : V h'.vip_data

wire_read-sent : (w : Wire) (len timeout : ℕ) → (wire_read w len timeout).1.sent ≡ w.sent
unfolding wire_read read_events read_event
wire_read-sent w len timeout = by_events w.events
  where
    by_events : (es : List (Event × ℕ)) → (read_events es w len).1.sent ≡ w.sent
    by_events [] = refl
    by_events ((arrives b, t) ∷ es) = refl
    by_events ((silence, t) ∷ es) = refl
    by_events ((unplugged, t) ∷ es) = refl
    by_events ((broken, t) ∷ es) = refl

module _ {G : Type 0} (env : Env G) where
  wire_write-Later :
      (s : List Bytes) (w : Wire) (bytes : Bytes)
      → IsTable (tables env) bytes
      → Later (IsTablePart env) s w.sent
      → Later (IsTablePart env) s (wire_write w bytes).1.sent
  unfolding wire_write write_as
  wire_write-Later s w bytes table l = by_results w.write_results
    where
      by_results : (rs : List Tx) → Later (IsTablePart env) s (write_as rs w bytes).1.sent
      by_results [] = l
      by_results (wrote n ∷ rs) =
          then_sent (take n bytes)
            (record { whole = bytes; size = n; table_lem = table; part_lem = refl }) l
      by_results (refused e ∷ rs) = l

  -- Any state of the transfer.
  abbrev pub AnyVip : VipTransferData → Type 0
  AnyVip v = Unit

  module _ (h : Host G) where
    abbrev C : Host G → Type 0
    C = Carries (IsTablePart env) AnyVip h

    device_read-Carries : (h' : Host G) (len timeout : ℕ) → C h' → C (device_read h' len timeout).1
    unfolding device_read
    device_read-Carries h' len timeout c = record {
      payload = c.payload;
      generator_lem = c.generator_lem;
      later =
          keep_qdl_read wire_read (λ w. Later (IsTablePart env) h.wire.sent w.sent)
            (λ w n t l. subst (Later (IsTablePart env) h.wire.sent) (sym (wire_read-sent w n t)) l)
            h'.pending h'.wire len timeout c.later;
      vip_lem = tt;
    }

    device_push_back-Carries : (h' : Host G) (buf : Bytes) → C h' → C (device_push_back h' buf)
    unfolding device_push_back
    device_push_back-Carries h' buf c = record {
      payload = c.payload;
      generator_lem = c.generator_lem;
      later = c.later;
      vip_lem = tt;
    }

    marker-Carries : (h' : Host G) (node : XmlNode) → C h' → C (firehose_check_vip_marker h' node)
    marker-Carries h' node c = check_vip_marker-cases C h' node c (record {
      payload = c.payload;
      generator_lem = c.generator_lem;
      later = c.later;
      vip_lem = tt;
    })

    pub Carries-KeptTables : KeptTables env C
    Carries-KeptTables = record {
      reading = record {
        keep_read = device_read-Carries;
        keep_push = device_push_back-Carries;
        keep_marker = marker-Carries;
      };
      keep_table = λ h' bytes t c. record {
        payload = c.payload;
        generator_lem = c.generator_lem;
        later = wire_write-Later h.wire.sent h'.wire bytes t c.later;
        vip_lem = tt;
      };
      keep_vip = λ h' v c. record {
        payload = c.payload;
        generator_lem = c.generator_lem;
        later = c.later;
        vip_lem = tt;
      };
    }

    -- What `firehose_vip_send_table` sends are tables.
    pub send_table-Carries : C (firehose_vip_send_table env h).1
    send_table-Carries =
        keep_send_table env Carries-KeptTables h
          (record { payload = refl; generator_lem = refl; later = now; vip_lem = tt })

  -- No transfer is under way, and no status is awaited.
  abbrev pub IsDisabled : VipTransferData → Type 0
  IsDisabled v = (v.state ≡ vip_disabled) × (v.fh_parse_status ≡ false)

  -- Then it sends nothing.
  pub send_table-nothing :
      (h : Host G)
      → IsDisabled h.vip_data
      → Carries (λ b. ⊥) IsDisabled h (firehose_vip_send_table env h).1
  send_table-nothing h (s, p) =
      subst (λ (out : Bool × Host G). Carries (λ b. ⊥) IsDisabled h out.1)
        (sym (send_table-disabled env h s p))
        (record { payload = refl; generator_lem = refl; later = now; vip_lem = (s, p) })
