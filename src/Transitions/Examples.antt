-- ===== src/Transitions/Examples.antt =====
-- Articles that are published and archived.
use ninja_devx.Prelude.{ℕ, List, codes, Text, ◌∷◌, [], none, some, ◌==◌}
use ninja_devx.Permissions.{Permission, nil}
use ninja_devx.Transitions.Defs.{StateField, Transition}
use ninja_devx.Permissions.{all_of}

abbrev Article : Type 0
Article = Text × ℕ

abbrev status_field : StateField Article
status_field = record { state = λ a. a.0; with_state = λ s a. (s, a.1) }

-- A permission without operands lets everybody pass. A request is the key of its user, and an
-- article has the key of its author.
abbrev anyone : Permission ℕ Article
anyone = all_of nil

abbrev publish_article : Transition ℕ Article
publish_article = record {
  source = codes "draft" ∷ [];
  target = codes "published";
  permissions = [];
  guard = some (λ user article. user == article.1);
  on_transition = none;
}

abbrev archive_article : Transition ℕ Article
archive_article = record {
  source = codes "published" ∷ [];
  target = codes "archived";
  permissions = anyone ∷ [];
  guard = none;
  on_transition = none;
}

abbrev workflow : List (Text × Transition ℕ Article)
workflow = (codes "publish", publish_article) ∷ (codes "archive", archive_article) ∷ []

abbrev draft : Article
draft = (codes "draft", 7)
