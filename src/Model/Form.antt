-- ===== src/Model/Form.antt =====
-- internal/model/form.go
use beacon_backend.Prelude.{String, List, Bool}

pub record FormOption : Type 0 where
  pub value : String
  pub label : String

pub record FormSection : Type 0 where
  pub key : String
  pub title : String
  pub kind : String
  pub required : Bool
  pub allow_other_text : Bool
  pub options : List FormOption

pub record FormOverrides : Type 0 where
  pub required : List String
  pub disabled : List String
