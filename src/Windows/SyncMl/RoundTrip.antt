-- ===== src/Windows/SyncMl/RoundTrip.antt =====
-- Reading what the server has written.
use mdm_saa_s.Common.{
  ℕ, suc, ◌≡◌, refl, sym, ap, ◌∙◌, String, true, false, Option, none, some, List, [], ◌∷◌, ◌==◌,
  inl, inr, truthy, get_or, Bool-cases, eq_iff,
}
use mdm_saa_s.Windows.Xml.{Elements, cons, tag, children, find_below}
use mdm_saa_s.Windows.SyncMl.{
  SyncItem, SyncCmd, Reply, status, exec, get, plain, text_of, stripped, parse_header, parse_item,
  parse_command, parse_body, parse, build_command, build_body, build, header_of,
}

abbrev item_of : String → Option String → SyncItem
item_of target code = record {
  target = some target;
  source = none;
  data_ = code;
  meta_type = none;
  meta_format = none;
}

abbrev text_of? : Option String → Option String
text_of? none = none
text_of? (some s) = text_of s

-- The command that a reader sees for the i-th reply.
unfoldable pub read_back : (ℕ → String) → ℕ → Reply → SyncCmd
read_back str i (status msg_ref cmd_ref ref_cmd target_ref source_ref code) =
    record (plain "Status" (str i)) {
      msg_ref = text_of msg_ref;
      cmd_ref = text_of cmd_ref;
      ref_cmd = text_of ref_cmd;
      target_ref = text_of target_ref;
      source_ref = text_of source_ref;
      data_ = text_of code;
    }
read_back str i (exec target code) = record (plain "Exec" (str i)) {
  items = item_of target (text_of? code) ∷ [];
}
read_back str i (get target) = record (plain "Get" (str i)) { items = item_of target none ∷ [] }

unfoldable pub read_all : (ℕ → String) → ℕ → List Reply → List SyncCmd
unfolding read_back
read_all str i [] = []
read_all str i (r ∷ rs) = read_back str i r ∷ read_all str (suc i) rs

module _ (strip : String → String) (str : ℕ → String) where
  -- A text with no space at its ends.
  abbrev pub IsTrim : String → Type 0
  IsTrim s = strip s ≡ s

  -- The texts of a status, which the reader strips.
  abbrev pub IsTrimReply : Reply → Type 0
  IsTrimReply (status a b c d e f) = IsTrim a × IsTrim b × IsTrim c × IsTrim d × IsTrim e × IsTrim f
  IsTrimReply (exec target code) = Unit
  IsTrimReply (get target) = Unit

  abbrev pub AllTrim : List Reply → Type 0
  AllTrim [] = Unit
  AllTrim (r ∷ rs) = IsTrimReply r × AllTrim rs

  -- `str` prints no space and at least one digit.
  abbrev pub Prints : Type 0
  Prints = (n : ℕ) → IsTrim (str n) × (truthy (str n) ≡ true)

  stripped-text : (s : String) → IsTrim s → stripped strip (text_of s) ≡ text_of s
  unfolding stripped text_of
  stripped-text s h = elim (Bool-cases (s == "")) [ inl e ↦ rw e refl | inr e ↦ rw (e, e, h) refl ]

  stripped-none : stripped strip none ≡ none
  unfolding stripped
  stripped-none = refl

  text_of-none : (s : String) → truthy s ≡ false → text_of s ≡ none
  unfolding text_of
  text_of-none s h = rw h refl

  text_of-some : (s : String) → truthy s ≡ true → text_of s ≡ some s
  unfolding text_of
  text_of-some s h = rw h refl

  target_text : (s : String) → get_or (text_of s) "" ≡ s
  unfolding text_of
  target_text s = elim (Bool-cases (s == "")) [
    | inl e ↦ rw e (sym ((eq_iff s "").0 e))
    | inr e ↦ rw e refl
  ]

  id_text : (s : String) → IsTrim s → truthy s ≡ true → stripped strip (text_of s) ≡ some s
  id_text s h t = stripped-text s h ∙ text_of-some s t

  -- Reading one reply.
  command_round_trip :
      Prints
      → (i : ℕ) (r : Reply) → IsTrimReply r
      → parse_command strip (tag (build_command str i r)) (children (build_command str i r))
        ≡ read_back str i r
  unfolding parse_command parse_item build_command read_back
  command_round_trip p i (status a b c d e f) (ha, hb, hc, hd, he, hf) =
      elim (Bool-cases (truthy d)) [
        | inl x ↦ elim (Bool-cases (truthy e)) [
          | inl y ↦
              rw
                (
                  x,
                  y,
                  id_text (str i) (p i).0 (p i).1,
                  (p i).1,
                  stripped-text a ha,
                  stripped-text b hb,
                  stripped-text c hc,
                  stripped-text f hf,
                  stripped-text d hd,
                  stripped-text e he,
                )
                refl
          | inr y ↦
              rw
                (
                  x,
                  y,
                  id_text (str i) (p i).0 (p i).1,
                  (p i).1,
                  stripped-text a ha,
                  stripped-text b hb,
                  stripped-text c hc,
                  stripped-text f hf,
                  stripped-text d hd,
                  stripped-none,
                  text_of-none e y,
                )
                refl
        ]
        | inr x ↦ elim (Bool-cases (truthy e)) [
          | inl y ↦
              rw
                (
                  x,
                  y,
                  id_text (str i) (p i).0 (p i).1,
                  (p i).1,
                  stripped-text a ha,
                  stripped-text b hb,
                  stripped-text c hc,
                  stripped-text f hf,
                  stripped-none,
                  text_of-none d x,
                  stripped-text e he,
                )
                refl
          | inr y ↦
              rw
                (
                  x,
                  y,
                  id_text (str i) (p i).0 (p i).1,
                  (p i).1,
                  stripped-text a ha,
                  stripped-text b hb,
                  stripped-text c hc,
                  stripped-text f hf,
                  stripped-none,
                  text_of-none d x,
                  text_of-none e y,
                )
                refl
        ]
      ]
  command_round_trip p i (exec target none) h =
      rw (id_text (str i) (p i).0 (p i).1, (p i).1, target_text target) refl
  command_round_trip p i (exec target (some code)) h =
      rw (id_text (str i) (p i).0 (p i).1, (p i).1, target_text target) refl
  command_round_trip p i (get target) h =
      rw (id_text (str i) (p i).0 (p i).1, (p i).1, target_text target) refl

  parse_body-cons :
      (i : ℕ) (r : Reply) (es : Elements)
      → parse_body strip (cons (build_command str i r) es)
        ≡ parse_command strip (tag (build_command str i r)) (children (build_command str i r))
          ∷ parse_body strip es
  unfolding parse_body build_command
  parse_body-cons i (status a b c d e f) es = refl
  parse_body-cons i (exec target code) es = refl
  parse_body-cons i (get target) es = refl

  body_round_trip :
      Prints
      → (i : ℕ) (rs : List Reply) → AllTrim rs
      → parse_body strip (build_body str i rs) ≡ read_all str i rs
  unfolding build_body read_all parse_body
  body_round_trip p i [] h = refl
  body_round_trip p i (r ∷ rs) (h, k) =
      parse_body-cons i r (build_body str (suc i) rs)
      ∙ ap (λ c. c ∷ parse_body strip (build_body str (suc i) rs)) (command_round_trip p i r h)
      ∙ ap (λ cs. read_back str i r ∷ cs) (body_round_trip p (suc i) rs k)

  header_round_trip :
      (session_id msg_id server_uri device_uri : String)
      → IsTrim session_id
      → truthy session_id ≡ true
      → IsTrim msg_id
      → truthy msg_id ≡ true
      → IsTrim server_uri
      → IsTrim device_uri
      → parse_header strip (header_of session_id msg_id server_uri device_uri) ≡ record {
        session_id = session_id;
        msg_id = msg_id;
        target_uri = device_uri;
        source_uri = server_uri;
      }
  unfolding parse_header find_below header_of
  header_round_trip a b c d ha ta hb tb hc hd =
      rw
        (
          id_text a ha ta,
          id_text b hb tb,
          ta,
          tb,
          stripped-text c hc,
          stripped-text d hd,
          target_text c,
          target_text d,
        )
        refl

  -- A message that the server has built is read as its header, with the two addresses, and its replies, numbered
  -- from 1 in their order, each with its fields, where an empty text is read as none. The texts that the reader
  -- strips are without space at their ends, and the identifiers of the session and the message are not empty.
  pub parse-build :
      (session_id msg_id server_uri device_uri : String) (rs : List Reply)
      → Prints
      → IsTrim session_id × (truthy session_id ≡ true)
      → IsTrim msg_id × (truthy msg_id ≡ true)
      → IsTrim server_uri
      → IsTrim device_uri
      → AllTrim rs
      → parse strip (build str session_id msg_id server_uri device_uri rs)
        ≡ some (record {
          header = record {
            session_id = session_id;
            msg_id = msg_id;
            target_uri = device_uri;
            source_uri = server_uri;
          };
          commands = read_all str 1 rs;
        })
  unfolding parse build
  parse-build a b c d rs p (ha, ta) (hb, tb) hc hd h =
      rw (header_round_trip a b c d ha ta hb tb hc hd, body_round_trip p 1 rs h) refl
