-- ===== src/Protocol/Copies.antt =====
-- What a copy of a message keeps (lib/src/ToolsProtocol.cpp).
use cc_tools_qt.Base.{◌≡◌, refl, ◌∙◌, false, Option, none, some, str_eq, arith}
use cc_tools_qt.Message.{Message, copy_from_to}
use cc_tools_qt.Factory.{clone}
use cc_tools_qt.Protocol.{Frame, copy_common, set_name, update, clone_message}

-- The class of the message, how it is to be sent, and what the user says about it.
pub record SameUse (m c : Message) : Type 0 where
  pub id_as_string : c.id_as_string ≡ m.id_as_string
  pub delay : c.delay ≡ m.delay
  pub delay_units : c.delay_units ≡ m.delay_units
  pub repeat_duration : c.repeat_duration ≡ m.repeat_duration
  pub repeat_duration_units : c.repeat_duration_units ≡ m.repeat_duration_units
  pub repeat_count : c.repeat_count ≡ m.repeat_count
  pub comment : c.comment ≡ m.comment
  pub extra_info : c.extra_info ≡ m.extra_info

-- What the message manager says about a message.
pub record SameLabels (m c : Message) : Type 0 where
  pub msg_num : c.msg_num ≡ m.msg_num
  pub msg_type : c.msg_type ≡ m.msg_type
  pub timestamp : c.timestamp ≡ m.timestamp

-- The refresh of a message changes its fields only, and the frame's update of it the messages of its
-- transport, its raw data and its extra information only.
pub record KeepsProperties {W : Type 0} (f : Frame W) : Type 0 where
  pub refresh_use : (m : Message) → SameUse m (f.refresh_msg m).1
  pub refresh_labels : (m : Message) → SameLabels m (f.refresh_msg m).1
  pub update_use : (m : Message) → SameUse m (f.update_message m)
  pub update_labels : (m : Message) → SameLabels m (f.update_message m)

SameUse-trans : (a b c : Message) → SameUse a b → SameUse b c → SameUse a c
SameUse-trans a b c e g = record {
  id_as_string = g.id_as_string ∙ e.id_as_string;
  delay = g.delay ∙ e.delay;
  delay_units = g.delay_units ∙ e.delay_units;
  repeat_duration = g.repeat_duration ∙ e.repeat_duration;
  repeat_duration_units = g.repeat_duration_units ∙ e.repeat_duration_units;
  repeat_count = g.repeat_count ∙ e.repeat_count;
  comment = g.comment ∙ e.comment;
  extra_info = g.extra_info ∙ e.extra_info;
}

SameLabels-trans : (a b c : Message) → SameLabels a b → SameLabels b c → SameLabels a c
SameLabels-trans a b c e g = record {
  msg_num = g.msg_num ∙ e.msg_num;
  msg_type = g.msg_type ∙ e.msg_type;
  timestamp = g.timestamp ∙ e.timestamp;
}

copy_to_none : {A : Type 0} (x : Option A) → copy_from_to x none ≡ x
copy_to_none none = refl
copy_to_none (some v) = refl

copy_over : {A : Type 0} (x y : Option A) → y ≡ none → copy_from_to x y ≡ x
copy_over none y e = e
copy_over (some v) y e = refl

module _ {W : Type 0} (f : Frame W) where
  update_keeps :
      KeepsProperties f
      → (m : Message) → str_eq m.id_as_string "" ≡ false
      → SameUse m (update f m).1 × SameLabels m (update f m).1
  unfolding update
  update_keeps k m e =
      let m1 = (f.refresh_msg m).1 in
      let uses = SameUse-trans m m1 (f.update_message m1) (k.refresh_use m) (k.update_use m1) in
      let labels =
        SameLabels-trans m m1 (f.update_message m1) (k.refresh_labels m) (k.update_labels m1) in
      (ground (arith, e, uses), ground (arith, e, labels))

  -- A copy of a message with an identifier is always made; it is of the same class, is to be sent in
  -- the same way, has the comment and the extra information of the original, and none of the labels
  -- that the message manager gives. This holds for a frame whose refresh and update leave these
  -- properties alone.
  pub clone_message_lem :
      KeepsProperties f
      → (m : Message) → str_eq m.id_as_string "" ≡ false
      → (c : Message) × (clone_message f m ≡ some c)
        × SameUse m c
        × (c.msg_num ≡ none)
        × (c.msg_type ≡ none)
        × (c.timestamp ≡ none)
  unfolding clone_message copy_common set_name
  clone_message_lem k m e =
      let x0 = set_name f (copy_common m (clone m)) in
      let (uses, labels) = update_keeps k x0 e in
      let x = (update f x0).1 in
      let c = record x { extra_info = copy_from_to m.extra_info x.extra_info } in
      let made : clone_message f m ≡ some c = ground (arith, e) in
      (
        c,
        made,
        record {
          id_as_string = uses.id_as_string;
          delay = uses.delay ∙ copy_to_none m.delay;
          delay_units = uses.delay_units ∙ copy_to_none m.delay_units;
          repeat_duration = uses.repeat_duration ∙ copy_to_none m.repeat_duration;
          repeat_duration_units = uses.repeat_duration_units ∙ copy_to_none m.repeat_duration_units;
          repeat_count = uses.repeat_count ∙ copy_to_none m.repeat_count;
          comment = uses.comment ∙ copy_to_none m.comment;
          extra_info = copy_over m.extra_info x.extra_info uses.extra_info;
        },
        labels.msg_num,
        labels.msg_type,
        labels.timestamp,
      )
