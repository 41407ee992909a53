-- ===== src/Sahara/Command/Payload.antt =====
-- src/sahara.c: a payload that comes in parts.
use qdl.Base.{
  ℕ, zero, suc, ◌+◌, ◌-◌, ◌≤◌, ◌<◌, false, ◌||◌, Option, none, some, List, [], ◌∷◌, ◌++◌,
  append_assoc, Bytes, length, length-append, take_all, map, ltb, ◌==◌, ◌≡◌, refl, ap, subst, ◌∙◌,
  arith, if◌then◌else◌,
}
use qdl.Io.{Rx, got, wrote}
use qdl.Sahara.{Wire, send, put32}
use qdl.Sahara.Cmd
use qdl.Sahara.Run.Steps.{word_back}
use qdl.Sahara.Command.{
  prepend, read_parts, sahara_read_payload, exec_packet, whole_payload, fetch, after_exec,
  sahara_command_exec,
}

-- The parts of a payload, none of them empty, and the bytes of all.
unfoldable pub AllSome : List Bytes → Type 0
AllSome [] = Unit
AllSome (p ∷ parts) = (0 < length p) × AllSome parts

abbrev pub joined : List Bytes → Bytes
joined [] = []
joined (p ∷ parts) = p ++ joined parts

not_zero : (n : ℕ) → 0 < n → (n == 0) ≡ false
not_zero n h = ground arith

read_parts-joined :
    (parts : List Bytes) (rounds left : ℕ) (rest : List Rx) (w : Wire)
    → AllSome parts
    → w.rx ≡ map got parts ++ rest
    → length (joined parts) ≡ left
    → left ≤ rounds
    → read_parts rounds left w ≡ (some (joined parts), record w { rx = rest })
unfolding read_parts AllSome
read_parts-joined [] zero left rest w s e l k = λ i. (some [], record w { rx = e i })
read_parts-joined [] (suc rounds) left rest w s e l k =
    subst (λ n. read_parts (suc rounds) n w ≡ (some [], record w { rx = rest })) l
      (λ i. (some [], record w { rx = e i }))
read_parts-joined (p ∷ parts) zero left rest w s e l k =
    absurd (omega (arith, s.0, length-append p (joined parts)))
read_parts-joined ([] ∷ parts) (suc rounds) left rest w (s, more) e l k = absurd (omega arith)
read_parts-joined ((b ∷ p) ∷ parts) (suc rounds) left rest w (s, more) e l k =
    let fits : length (b ∷ p) ≤ left = omega (arith, length-append (b ∷ p) (joined parts)) in
    rw (not_zero left (omega arith), e, take_all left (b ∷ p) fits)
      (ap (prepend (b ∷ p)) (
        read_parts-joined parts rounds (left - length (b ∷ p)) rest
          (record w { rx = map got parts ++ rest }) more refl
          (omega (arith, length-append (b ∷ p) (joined parts))) (omega arith)))

-- A reply that announces a payload.
abbrev pub exec_resp_packet : ℕ → ℕ → Bytes
exec_resp_packet client_cmd data_len =
    put32 Cmd.execute_resp ++ put32 16 ++ put32 client_cmd ++ put32 data_len

not_less : (a b : ℕ) → b ≤ a → ltb a b ≡ false
not_less a b h = ground arith

fetch-joined :
    (parts : List Bytes) (n : ℕ) (rest : List Rx) (k : ℕ) (w : Wire)
    → AllSome parts
    → w.rx ≡ map got parts ++ rest
    → length (joined parts) ≡ n
    → fetch n (wrote k, w) ≡ (some (joined parts), record w { rx = rest })
unfolding sahara_read_payload
fetch-joined parts n rest k w s e l =
    ap (whole_payload n) (read_parts-joined parts n n rest w s e l (omega arith))
    ∙ rw (not_less (length (joined parts)) n (omega arith)) refl

after_exec-joined :
    (client_cmd buf_len : ℕ) (parts : List Bytes) (n : ℕ) (rest : List Rx) (k : ℕ) (w : Wire)
    → AllSome parts
    → w.rx ≡ map got parts ++ rest
    → length (joined parts) ≡ n
    → 0 < n
    → n ≤ buf_len
    → n < 4294967296
    → w.ack (length w.tx) ≡ wrote k
    → after_exec client_cmd buf_len (got (exec_resp_packet client_cmd n)) w ≡ (
      some (joined parts),
      record w { rx = rest; tx = w.tx ++ exec_packet Cmd.execute_data client_cmd ∷ [] },
    )
after_exec-joined client_cmd buf_len parts n rest k w s e l some_bytes fits word a =
    let next : Wire = record w { tx = w.tx ++ exec_packet Cmd.execute_data client_cmd ∷ [] } in
    let body : ℕ → Option Bytes × Wire = λ d.
      if d == 0 || ltb buf_len d
      then (none, w)
      else fetch d (send w (exec_packet Cmd.execute_data client_cmd)) in
    (λ i. body (word_back n word i))
    ∙ rw (not_zero n some_bytes, not_less buf_len n fits, a)
        (fetch-joined parts n rest k next s e l)

-- When the device answers EXECUTE by announcing a payload that fits the buffer and then sends it in
-- parts of any sizes but 0, and both writes succeed, `sahara_command_exec` returns the whole
-- payload, having sent EXECUTE and EXECUTE_DATA and read nothing more.
pub sahara_command_exec_lem :
    (client_cmd buf_len : ℕ) (parts : List Bytes) (rest : List Rx) (j k : ℕ) (w : Wire)
    → AllSome parts
    → w.rx ≡ got (exec_resp_packet client_cmd (length (joined parts))) ∷ (map got parts ++ rest)
    → 0 < length (joined parts)
    → length (joined parts) ≤ buf_len
    → length (joined parts) < 4294967296
    → w.ack (length w.tx) ≡ wrote j
    → w.ack (length w.tx + 1) ≡ wrote k
    → sahara_command_exec client_cmd buf_len w ≡ (
      some (joined parts),
      record w {
        rx = rest;
        tx =
            w.tx
            ++ exec_packet Cmd.execute client_cmd ∷ exec_packet Cmd.execute_data client_cmd ∷ [];
      },
    )
unfolding sahara_command_exec
sahara_command_exec_lem client_cmd buf_len parts rest j k w s e some_bytes fits word a b =
    let first = exec_packet Cmd.execute client_cmd in
    let next : Wire = record w { rx = map got parts ++ rest; tx = w.tx ++ first ∷ [] } in
    rw (a, e)
      (after_exec-joined client_cmd buf_len parts (length (joined parts)) rest k next s refl refl
          some_bytes fits word (ap w.ack (length-append w.tx (first ∷ [])) ∙ b)
        ∙ (λ i. (
          some (joined parts),
          record w {
            rx = rest;
            tx = append_assoc w.tx (first ∷ []) (exec_packet Cmd.execute_data client_cmd ∷ []) i;
          },
        )))
