-- ===== src/Windows/SyncMl.antt =====
-- app/mdm/windows/syncml.py: messages of the OMA-DM protocol, read from and written to trees of elements.
-- `strip` and `str` are Python's `str.strip` and `str` on numbers. The branches of `build` for Replace, Add
-- and Alert are left out: the server sends none of these.
pub mod RoundTrip
use mdm_saa_s.Common.{
  ℕ, suc, String, Bool, true, false, Option, none, some, List, [], ◌∷◌, ◌++◌, ◌==◌, truthy, present,
  get_or, or_else, map, if◌then◌else◌,
}
use mdm_saa_s.Windows.Xml.{
  Element, element, Elements, nil, cons, tag, text, children, ◌+++◌, find, find_all, find_below,
  found_text,
}

pub record SyncHdr : Type 0 where
  pub session_id : String
  pub msg_id : String
  pub target_uri : String
  pub source_uri : String

pub record SyncItem : Type 0 where
  pub target : Option String
  pub source : Option String
  pub data_ : Option String
  pub meta_type : Option String
  pub meta_format : Option String

pub record SyncCmd : Type 0 where
  pub cmd : String
  pub cmd_id : String
  pub items : List SyncItem
  pub msg_ref : Option String
  pub cmd_ref : Option String
  pub ref_cmd : Option String
  pub target_ref : Option String
  pub source_ref : Option String
  pub data_ : Option String

pub record SyncMsg : Type 0 where
  pub header : SyncHdr
  pub commands : List SyncCmd

-- A command with its default fields.
abbrev pub plain : String → String → SyncCmd
plain cmd cmd_id = record {
  cmd = cmd;
  cmd_id = cmd_id;
  items = [];
  msg_ref = none;
  cmd_ref = none;
  ref_cmd = none;
  target_ref = none;
  source_ref = none;
  data_ = none;
}

-- The replies of the server: `status`'s fields are msg_ref, cmd_ref, ref_cmd, target_ref, source_ref and data.
pub data Reply : Type 0 where
  status : String → String → String → String → String → String → Reply
  exec : String → Option String → Reply
  get : String → Reply

-- A node with a text, as it is read back: an empty text is none.
unfoldable pub text_of : String → Option String
text_of s = if truthy s then some s else none

abbrev pub leaf : String → String → Element
leaf name s = element name (text_of s) nil

abbrev pub node : String → Elements → Element
node name es = element name none es

abbrev pub one : Element → Elements
one e = cons e nil

-- `if s: ET.SubElement(el, name).text = s`
abbrev pub leaf_if : String → String → Elements
leaf_if name s = if truthy s then one (leaf name s) else nil

abbrev pub data_leaf : Option String → Elements
data_leaf none = nil
data_leaf (some s) = one (leaf "Data" s)

abbrev pub target_node : String → Element
target_node uri = node "Target" (one (leaf "LocURI" uri))

abbrev pub child_text : Option Element → Option String
child_text none = none
child_text (some e) = text e

abbrev pub below : Option Element → Elements
below none = nil
below (some e) = children e

module _ (strip : String → String) where
  unfoldable pub stripped : Option String → Option String
  stripped t = if present t then some (strip (get_or t "")) else none

  -- _find_text, and `_find_text(…) or "0"`
  abbrev pub find_text : String → Elements → Option String
  find_text name es = stripped (child_text (find name es))

  abbrev pub text_or_0 : String → Elements → String
  text_or_0 name es = let t = find_text name es in if present t then get_or t "0" else "0"

  -- The text of the n-th LocURI of the header.
  abbrev pub uri_at_0 : List Element → String
  uri_at_0 [] = ""
  uri_at_0 (e ∷ es) = get_or (stripped (text e)) ""

  abbrev pub uri_at_1 : List Element → String
  uri_at_1 [] = ""
  uri_at_1 (e ∷ es) = uri_at_0 es

  unfoldable pub parse_header : Elements → SyncHdr
  unfolding find_below
  parse_header es = record {
    session_id = text_or_0 "SessionID" es;
    msg_id = text_or_0 "MsgID" es;
    target_uri = uri_at_0 (find_below "LocURI" es);
    source_uri = uri_at_1 (find_below "LocURI" es);
  }

  unfoldable pub parse_item : Elements → SyncItem
  parse_item es = record {
    target = found_text (find "LocURI" (below (find "Target" es)));
    source = found_text (find "LocURI" (below (find "Source" es)));
    data_ = child_text (find "Data" es);
    meta_type = child_text (find "Type" (below (find "Meta" es)));
    meta_format = child_text (find "Format" (below (find "Meta" es)));
  }

  unfoldable pub parse_command : String → Elements → SyncCmd
  unfolding parse_item
  parse_command name es =
      let id = text_or_0 "CmdID" es in
      if name == "Alert"
      then record (plain "Alert" id) { data_ = find_text "Data" es }
      else if name == "Status"
      then (record (plain "Status" id) {
        msg_ref = find_text "MsgRef" es;
        cmd_ref = find_text "CmdRef" es;
        ref_cmd = find_text "Cmd" es;
        target_ref = find_text "TargetRef" es;
        source_ref = find_text "SourceRef" es;
        data_ = find_text "Data" es;
      })
      else record (plain name id) {
        items = map (λ e. parse_item (children e)) (find_all "Item" es);
      }

  unfoldable pub parse_body : Elements → List SyncCmd
  unfolding parse_command
  parse_body nil = []
  parse_body (cons e es) =
      let rest = parse_body es in
      if tag e == "Final" then rest else parse_command (tag e) (children e) ∷ rest

  -- `none` is the ValueError of a message without a header.
  unfoldable pub parse : Element → Option SyncMsg
  unfolding parse_header parse_body
  parse root = elim (find "SyncHdr" (children root)) [
    | none ↦ none
    | some hdr ↦ some (record {
      header = parse_header (children hdr);
      commands = parse_body (below (find "SyncBody" (children root)));
    })
  ]

unfoldable pub header_of : String → String → String → String → Elements
header_of session_id msg_id server_uri device_uri = cons (leaf "VerDTD" "1.2") (
    cons (leaf "VerProto" "DM/1.2") (
      cons (leaf "SessionID" session_id) (
        cons (leaf "MsgID" msg_id)
          (cons (target_node device_uri) (one (node "Source" (one (leaf "LocURI" server_uri))))))))

module _ (str : ℕ → String) where
  unfoldable pub build_command : ℕ → Reply → Element
  build_command i (status msg_ref cmd_ref ref_cmd target_ref source_ref code) = node "Status" (
      cons (leaf "CmdID" (str i)) (
        cons (leaf "MsgRef" msg_ref) (
          cons (leaf "CmdRef" cmd_ref) (
            cons (leaf "Cmd" ref_cmd) (
              leaf_if "TargetRef" target_ref
              +++ leaf_if "SourceRef" source_ref
              +++ one (leaf "Data" code))))))
  build_command i (exec target code) =
      node "Exec" (
        cons (leaf "CmdID" (str i))
          (one (node "Item" (cons (target_node target) (data_leaf code)))))
  build_command i (get target) =
      node "Get" (cons (leaf "CmdID" (str i)) (one (node "Item" (one (target_node target)))))

  unfoldable pub build_body : ℕ → List Reply → Elements
  unfolding build_command
  build_body i [] = one (node "Final" nil)
  build_body i (r ∷ rs) = cons (build_command i r) (build_body (suc i) rs)

  unfoldable pub build : String → String → String → String → List Reply → Element
  unfolding build_body header_of
  build session_id msg_id server_uri device_uri replies = node "SyncML" (
      cons (node "SyncHdr" (header_of session_id msg_id server_uri device_uri))
        (one (node "SyncBody" (build_body 1 replies))))
