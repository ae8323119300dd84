-- ===== src/Engine/Compiler/Actions.antt =====
-- What a rule's `then` says, and what `base_action` of src/edge/engine/compiler.py reads from it.
use Prim.Native.String.{String}
use mathlib.Core.Path.{◌≡◌, subst}
use mathlib.Core.Bool.{true}
use trustmodel_edge.Prelude.Words.{lacks}
use trustmodel_edge.Prelude.Prefix.{Begins, split_once-Begins, Begins-split_once}
use trustmodel_edge.Engine.Compiler.{base_action}

-- The action is the word `kind`, or begins with it and a colon.
abbrev pub Acts : String → String → Type 0
Acts kind action = Begins b':' kind action

pub base_action-Acts : (action kind : String) → base_action action ≡ kind → Acts kind action
unfolding base_action
base_action-Acts action kind e = subst (λ k. Acts k action) e (split_once-Begins b':' action)

pub Acts-base_action :
    (action kind : String) → lacks b':' kind ≡ true → Acts kind action → base_action action ≡ kind
unfolding base_action
Acts-base_action action kind l h = Begins-split_once b':' kind action l h
