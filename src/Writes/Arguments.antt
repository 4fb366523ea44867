-- ===== src/Writes/Arguments.antt =====
-- The arguments of a tool (mcp/server.py) are read within any relation that operations keep.
use async_gate.Prelude.{Option, none, some, String}
use async_gate.Models.Json.{ℤ, Json, Items, nil, cons, Fields, end, field}
use async_gate.Store.{Store, M}
use async_gate.Store.Frame.{Within}
use async_gate.Store.Closed.{
  Closed, Within-pure, Within-raise, Within-or_raise, Within-bind, within_rules,
}
use async_gate.Mcp.Arguments
use async_gate.Mcp.Arguments.{
  as_text, as_dict, as_count, as_int, as_bool, as_uuid, as_texts, as_list, optional, member,
  list_of, read_time, read_requirements, required,
}

module _ {R : Store → Store → Type 0} (c : Closed R) where
  as_text-Within : (v : Json) → Within R (as_text v)
  as_text-Within (Json.str s) = Within-pure c s
  as_text-Within _ = Within-raise c _

  as_dict-Within : (v : Json) → Within R (as_dict v)
  as_dict-Within (Json.obj d) = Within-pure c d
  as_dict-Within _ = Within-raise c _

  as_int-Within : (v : Json) → Within R (as_int v)
  as_int-Within (Json.int i) = Within-pure c i
  as_int-Within _ = Within-raise c _

  as_count-Within : (v : Json) → Within R (as_count v)
  as_count-Within (Json.int (ℤ.pos n)) = Within-pure c n
  as_count-Within _ = Within-raise c _

  as_bool-Within : (v : Json) → Within R (as_bool v)
  as_bool-Within (Json.bool b) = Within-pure c b
  as_bool-Within _ = Within-raise c _

  as_uuid-Within : (v : Json) → Within R (as_uuid v)
  as_uuid-Within (Json.str s) = search within_rules
  as_uuid-Within _ = Within-raise c _

  as_texts-Within : (xs : Items) → Within R (as_texts xs)
  as_texts-Within nil = Within-pure c _
  as_texts-Within (cons x xs) =
      Within-bind c _ _ (as_text-Within x)
        λ t. Within-bind c _ _ (as_texts-Within xs) λ ts. Within-pure c _

  as_list-Within : (v : Json) → Within R (as_list v)
  as_list-Within (Json.arr xs) = as_texts-Within xs
  as_list-Within _ = Within-raise c _

  optional-Within :
      {A : Type 0} (read : Json → M A) (found : Option Json)
      → ((v : Json) → Within R (read v))
      → Within R (optional read found)
  optional-Within read none h = Within-pure c _
  optional-Within read (some v) h = search (within_rules, h)

  required-Within : (key : String) (arguments : Fields) → Within R (required key arguments)
  unfolding required
  required-Within key arguments = Within-or_raise c _ _

  pub text_arg-Within :
      (key : String) (arguments : Fields) → Within R (Arguments.text_arg key arguments)
  unfolding Arguments.text_arg
  text_arg-Within key arguments = search (within_rules, required-Within, as_text-Within)

  pub dict_arg-Within :
      (key : String) (arguments : Fields) → Within R (Arguments.dict_arg key arguments)
  unfolding Arguments.dict_arg
  dict_arg-Within key arguments = search (within_rules, required-Within, as_dict-Within)

  pub uuid_arg-Within :
      (key : String) (arguments : Fields) → Within R (Arguments.uuid_arg key arguments)
  unfolding Arguments.uuid_arg
  uuid_arg-Within key arguments = search (within_rules, required-Within, as_uuid-Within)

  pub text_opt-Within :
      (key : String) (arguments : Fields) → Within R (Arguments.text_opt key arguments)
  unfolding Arguments.text_opt
  text_opt-Within key arguments = search (optional-Within, as_text-Within)

  pub dict_opt-Within :
      (key : String) (arguments : Fields) → Within R (Arguments.dict_opt key arguments)
  unfolding Arguments.dict_opt
  dict_opt-Within key arguments = search (optional-Within, as_dict-Within)

  pub count_opt-Within :
      (key : String) (arguments : Fields) → Within R (Arguments.count_opt key arguments)
  unfolding Arguments.count_opt
  count_opt-Within key arguments = search (optional-Within, as_count-Within)

  pub int_opt-Within :
      (key : String) (arguments : Fields) → Within R (Arguments.int_opt key arguments)
  unfolding Arguments.int_opt
  int_opt-Within key arguments = search (optional-Within, as_int-Within)

  pub bool_opt-Within :
      (key : String) (arguments : Fields) → Within R (Arguments.bool_opt key arguments)
  unfolding Arguments.bool_opt
  bool_opt-Within key arguments = search (optional-Within, as_bool-Within)

  pub list_opt-Within :
      (key : String) (arguments : Fields) → Within R (Arguments.list_opt key arguments)
  unfolding Arguments.list_opt
  list_opt-Within key arguments = search (optional-Within, as_list-Within)

  pub uuid_opt-Within :
      (key : String) (arguments : Fields) → Within R (Arguments.uuid_opt key arguments)
  unfolding Arguments.uuid_opt
  uuid_opt-Within key arguments = search (optional-Within, as_uuid-Within)

  member-Within :
      {A : Type 0} (parse : String → Option A) (text : Option String) → Within R (member parse text)
  member-Within parse none = Within-pure c _
  member-Within parse (some text) = search within_rules

  pub status_opt-Within :
      (key : String) (arguments : Fields) → Within R (Arguments.status_opt key arguments)
  unfolding Arguments.status_opt
  status_opt-Within key arguments = search (within_rules, text_opt-Within, member-Within)

  pub type_opt-Within :
      (key : String) (arguments : Fields) → Within R (Arguments.type_opt key arguments)
  unfolding Arguments.type_opt
  type_opt-Within key arguments = search (within_rules, text_opt-Within, member-Within)

  pub kind_arg-Within :
      (key : String) (arguments : Fields) → Within R (Arguments.kind_arg key arguments)
  unfolding Arguments.kind_arg
  kind_arg-Within key arguments = search (within_rules, text_arg-Within)

  read_time-Within : (text : Option String) → Within R (read_time text)
  read_time-Within none = Within-pure c _
  read_time-Within (some t) = search within_rules

  pub time_opt-Within :
      (key : String) (arguments : Fields) → Within R (Arguments.time_opt key arguments)
  unfolding Arguments.time_opt
  time_opt-Within key arguments = search (within_rules, text_opt-Within, read_time-Within)

  list_of-Within : (found : Option Json) → Within R (list_of found)
  list_of-Within none = Within-pure c _
  list_of-Within (some v) = as_list-Within v

  read_requirements-Within : (found : Option Fields) → Within R (read_requirements found)
  read_requirements-Within none = Within-pure c _
  read_requirements-Within (some end) = Within-pure c _
  read_requirements-Within (some (field k v d)) = search (within_rules, list_of-Within)

  pub requirements_opt-Within :
      (arguments : Fields) → Within R (Arguments.requirements_opt arguments)
  unfolding Arguments.requirements_opt
  requirements_opt-Within arguments =
      search (within_rules, dict_opt-Within, read_requirements-Within)

pub ruleset argument_rules = (
  text_arg-Within, dict_arg-Within, uuid_arg-Within, text_opt-Within, dict_opt-Within,
  count_opt-Within, int_opt-Within, bool_opt-Within, list_opt-Within, uuid_opt-Within,
  status_opt-Within, type_opt-Within, kind_arg-Within, time_opt-Within, requirements_opt-Within,
)
