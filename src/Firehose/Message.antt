-- ===== src/Firehose/Message.antt =====
-- src/firehose.c: finding the element of a response, and the parsers of responses.
pub mod Digest
use qdl.Base.{
  either, ℕ, zero, suc, ◌+◌, ◌*◌, Bool, true, false, not, Option, none, some, List, [], ◌∷◌, Bytes,
  strstr, codes, same, String, if◌then◌else◌,
}
use qdl.Firehose.{
  XmlNode, element, other, XmlNodes, last, next_to, xml_get_prop, is_named, Env, Host,
}
use Digest.{extract_sha256_hex}

-- A result that is negative is `none`: `firehose_read` does not tell these apart. A parser also
-- gets and returns what its `data` points to, and the flag `rawmode`.
abbrev pub Parser : Type 0 → Type 0
Parser D = XmlNode → D → Bool → Option ℕ × D × Bool

abbrev pub firehose_ack : ℕ
firehose_ack = 0

abbrev pub firehose_nak : ℕ
firehose_nak = 1

children_of : XmlNode → XmlNodes
children_of (element name props children) = children
children_of other = last

-- the children of the first `data` element
find_data : XmlNodes → Option XmlNodes
find_data last = none
find_data (next_to node nodes) =
    if is_named node "data" then some (children_of node) else find_data nodes

first_element : XmlNodes → Option XmlNode
first_element last = none
first_element (next_to other nodes) = first_element nodes
first_element (next_to (element name props children) nodes) = some (element name props children)

first_element_of : Option XmlNodes → Option XmlNode
first_element_of none = none
first_element_of (some nodes) = first_element nodes

data_of : Option XmlNodes → Option XmlNodes
data_of none = none
data_of (some nodes) = find_data nodes

-- `firehose_response_parse`; every error is `-EINVAL`
unfoldable pub firehose_response_parse : {G : Type 0} → Env G → Bytes → Option XmlNode
unfolding first_element_of first_element data_of find_data children_of
firehose_response_parse env buf = first_element_of (data_of (env.xml_read_memory buf))

abbrev pub is_found : Option ℕ → Bool
is_found none = false
is_found (some n) = true

abbrev pub vip_programmer_marker : Bytes
vip_programmer_marker = codes "VIP is enabled, receiving the signed table"

abbrev pub announces : Option Bytes → Bool
announces none = false
announces (some value) = is_found (strstr value vip_programmer_marker)

-- `firehose_check_vip_marker`
unfoldable pub firehose_check_vip_marker : {G : Type 0} → Host G → XmlNode → Host G
firehose_check_vip_marker h node =
    if h.programmer_requires_vip
    then h
    else if not (is_named node "log")
    then h
    else if announces (xml_get_prop node "value")
    then record h { programmer_requires_vip = true }
    else h

-- The host is as before or marked.
pub check_vip_marker-cases :
    {G : Type 0} (P : Host G → Type 0) (h : Host G) (node : XmlNode)
    → P h
    → P (record h { programmer_requires_vip = true })
    → P (firehose_check_vip_marker h node)
unfolding firehose_check_vip_marker
check_vip_marker-cases P h node p q =
    either P h.programmer_requires_vip p (
      either P (not (is_named node "log")) p (either P (announces (xml_get_prop node "value")) q p))

is_true : Option Bytes → Bool
is_true none = false
is_true (some value) = same value (codes "true")

generic_result : XmlNode → Bytes → Option ℕ
generic_result node value =
    if is_named node "log"
    then none
    else if same value (codes "ACK")
    then some firehose_ack
    else if same value (codes "NAK")
    then some firehose_nak
    else none

generic_with : {D : Type 0} → Option Bytes → Parser D
generic_with none node x rawmode = (none, x, rawmode)
generic_with (some value) node x rawmode =
    (generic_result node value, x, if is_true (xml_get_prop node "rawmode") then true else rawmode)

-- `firehose_generic_parser`
unfoldable pub firehose_generic_parser : {D : Type 0} → Parser D
unfolding generic_with generic_result is_true
firehose_generic_parser node x rawmode = generic_with (xml_get_prop node "value") node x rawmode

-- The digest of an operation, with `digest_valid` false at `none`: what is taken from one more text.
extract_more : Option Bytes → Option Bytes → Option Bytes
extract_more (some digest) text = some digest
extract_more none none = none
extract_more none (some text) = extract_sha256_hex text

-- the loop over the attribute names of `firehose_sha256_parser`
from_attributes : XmlNode → Option Bytes → List String → Option Bytes
from_attributes node digest [] = digest
from_attributes node digest (attr ∷ attrs) =
    from_attributes node (extract_more digest (xml_get_prop node attr)) attrs

log_digest : Option Bytes → Option Bytes → Option Bytes
log_digest none digest = digest
log_digest (some value) digest = extract_more digest (some value)

-- `firehose_sha256_parser`
unfoldable pub firehose_sha256_parser : Parser (Option Bytes)
unfolding log_digest from_attributes extract_more firehose_generic_parser
firehose_sha256_parser node digest rawmode =
    let (ret, same_digest, raw) = firehose_generic_parser node digest rawmode in
    if is_named node "log"
    then (none, log_digest (xml_get_prop node "value") digest, rawmode)
    else (ret, from_attributes node digest ("Digest" ∷ "SHA256" ∷ "sha256" ∷ []), raw)

module _ (strtoul : Bytes → ℕ) where
  supported : Option Bytes → ℕ → Option ℕ × ℕ
  supported none size = (none, size)
  supported (some payload) size = (some firehose_ack, strtoul payload)

  configured : Bytes → Option Bytes → XmlNode → ℕ → Option ℕ × ℕ
  configured value none node size = (none, size)
  configured value (some payload) node size =
      let larger = supported (xml_get_prop node "MaxPayloadSizeToTargetInBytesSupported") size in
      if same value (codes "ACK") then larger else (some firehose_ack, strtoul payload)

  configure_with : Option Bytes → XmlNode → ℕ → Option ℕ × ℕ
  configure_with none node size = (none, size)
  configure_with (some value) node size =
      let answer = configured value (xml_get_prop node "MaxPayloadSizeToTargetInBytes") node size in
      if is_named node "log" then (none, size) else answer

  -- `firehose_configure_response_parser`; its data is the size
  unfoldable pub firehose_configure_response_parser : Parser ℕ
  unfolding configure_with configured supported
  firehose_configure_response_parser node size rawmode =
      let (ret, size') = configure_with (xml_get_prop node "value") node size in
      (ret, size', rawmode)
