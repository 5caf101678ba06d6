-- ===== src/Model/Resource.antt =====
-- pkg/model/api/v1: the kinds whose struct has the fields Kind, Metadata and Spec.
use perses.Model.Kind.{Kind}

pub record Resource (M S : Type 0) : Type 0 where
  pub kind : Kind
  pub metadata : M
  pub spec : S
