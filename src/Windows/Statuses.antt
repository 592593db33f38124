-- ===== src/Windows/Statuses.antt =====
-- What a Status of a message does to the commands.
use mathlib.Core.Path.{subst}
use mathlib.Core.Option.{some-injective}
use mdm_saa_s.Common.{
  ℕ, ◌≡◌, refl, String, true, Option, none, some, List, [], ◌∷◌, ◌==◌, inl, inr, Bool-cases, arith,
  All, select, update_where, least,
}
use mdm_saa_s.Models.{Device, MdmCommand}
use mdm_saa_s.Database.{Db, if_given, on_commands}
use mdm_saa_s.Windows.Xml.{Element, Elements, nil, cons, tag, children, find}
use mdm_saa_s.Windows.SyncMl.{
  SyncMsg, SyncCmd, parse, parse_body, parse_command, parse_header, below,
}
use mdm_saa_s.Windows.Session.{process_status, command_uuid_of, answered, is_delivered_to}

-- The answer to the oldest delivered command of a device.
unfoldable pub answer_oldest : ℕ → Option String → Device → List MdmCommand → List MdmCommand
unfolding least
answer_oldest now code device cs =
    elim (least (λ c. c.queued_at) (select (is_delivered_to device) cs)) [
      | none ↦ cs
      | some o ↦ update_where (λ c. c.id == o.id) (answered now code) cs
    ]

abbrev IsBareStatus : SyncCmd → Type 0
IsBareStatus c = (c.cmd == "Status") ≡ true → c.items ≡ []

module _ (strip : String → String) where
  parse_command-IsBareStatus :
      (name : String) (es : Elements) → IsBareStatus (parse_command strip name es)
  unfolding parse_command
  parse_command-IsBareStatus name es = elim (Bool-cases (name == "Alert")) [
    | inl a ↦ rw a (λ _. refl)
    | inr a ↦ elim (Bool-cases (name == "Status")) [
      | inl b ↦ rw (a, b) (λ _. refl)
      | inr b ↦ rw (a, b) (λ h. absurd (ground (arith, h, b)))
    ]
  ]

  parse_body-IsBareStatus : (es : Elements) → All IsBareStatus (parse_body strip es)
  unfolding parse_body
  parse_body-IsBareStatus nil = tt
  parse_body-IsBareStatus (cons e es) = elim (Bool-cases (tag e == "Final")) [
    | inl a ↦ rw a (parse_body-IsBareStatus es)
    | inr a ↦ rw a (parse_command-IsBareStatus (tag e) (children e), parse_body-IsBareStatus es)
  ]

  parse-IsBareStatus :
      (root : Element) (msg : SyncMsg) → parse strip root ≡ some msg → All IsBareStatus msg.commands
  unfolding parse
  parse-IsBareStatus root msg h = go (find "SyncHdr" (children root)) h
    where
      go :
          (o : Option Element)
          → elim o as (λ _. Option SyncMsg) [
            | none ↦ none
            | some hdr ↦ some (record {
              header = parse_header strip (children hdr);
              commands = parse_body strip (below (find "SyncBody" (children root)));
            })
          ]
            ≡ some msg
          → All IsBareStatus msg.commands
      go none k = absurd (cc)
      go (some hdr) k =
          subst (λ m. All IsBareStatus m.commands) (some-injective _ _ k)
            (parse_body-IsBareStatus (below (find "SyncBody" (children root))))

module _ (now : ℕ) (device : Device) (s : Db) where
  abbrev pub AnswersOldest : SyncCmd → Type 0
  AnswersOldest c =
      (c.cmd == "Status") ≡ true
      → (process_status now c device s).1.commands ≡ answer_oldest now c.data_ device s.commands

  process_status-AnswersOldest : (c : SyncCmd) → IsBareStatus c → AnswersOldest c
  unfolding process_status command_uuid_of answer_oldest
  process_status-AnswersOldest c h e =
      rw (h e) (go (least (λ x. x.queued_at) (select (is_delivered_to device) s.commands)))
    where
      go :
          (o : Option MdmCommand)
          → (if_given o
              (λ x. on_commands (update_where (λ y. y.id == x.id) (answered now c.data_)))
              s).1.commands
            ≡ elim o as (λ _. List MdmCommand) [
              | none ↦ s.commands
              | some x ↦ update_where (λ y. y.id == x.id) (answered now c.data_) s.commands
            ]
      go none = refl
      go (some x) = refl

  All-map : (cs : List SyncCmd) → All IsBareStatus cs → All AnswersOldest cs
  All-map [] h = tt
  All-map (c ∷ cs) (h, k) = (process_status-AnswersOldest c h, All-map cs k)

-- Each Status of a message that the server has read, whatever it refers to, gives its code to the command of the
-- device that has been delivered and that was queued first, and changes no other command.
pub every_status-AnswersOldest :
    (strip : String → String) (root : Element) (msg : SyncMsg) (now : ℕ) (device : Device) (s : Db)
    → parse strip root ≡ some msg
    → All (AnswersOldest now device s) msg.commands
every_status-AnswersOldest strip root msg now device s h =
    All-map now device s msg.commands (parse-IsBareStatus strip root msg h)
