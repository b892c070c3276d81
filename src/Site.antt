-- ===== src/Site.antt =====
-- site/.vuepress/config.js: the configuration of the documentation's site.
use Prim.Native.String.{String}
use artillery.Base.{Bool, true, List, [], ◌∷◌}

pub record ThemeConfig : Type 0 where
  pub edit_links : Bool
  pub sidebar_group_order : List String

pub record SiteConfig : Type 0 where
  pub title : String
  pub dest : String
  pub description : String
  pub theme : String
  pub theme_config : ThemeConfig

abbrev pub theme_config : ThemeConfig
theme_config = record {
  edit_links = true;
  sidebar_group_order = "getting-started" ∷ "building-blocks" ∷ "examples" ∷ [];
}

abbrev pub config : SiteConfig
config = record {
  title = "Artillery";
  dest = "../docs";
  description = "Cluster management & Distributed data protocol";
  theme = "api";
  theme_config = theme_config;
}
