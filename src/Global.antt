-- ===== src/Global.antt =====
-- signal/global.go: the registry of the sessions of a node, by their ids and by their users.
pub mod Index
pub mod Closing
pub mod Sessions
use conference_go.Common.{
  String, Bool, true, false, List, [], ◌∷◌, ◌++◌, Option, none, some, str_eq,
}
use conference_go.Maps.{AssocMap, lookup, insert, erase}
use conference_go.Collection.Unordered.{slice_remove_if_ignore_order}
use conference_go.Context.{Context}

pub record Global : Type 0 where
  pub sig_map : AssocMap Context
  pub sig_map_by_user : AssocMap (List Context)

abbrev pub new_global : Global
new_global = record { sig_map = []; sig_map_by_user = [] }

abbrev pub with_context : Context → Option (List Context) → List Context
with_context ctx none = ctx ∷ []
with_context ctx (some ctxs) = ctxs ++ ctx ∷ []

-- `RegisterSignalContext`
unfoldable pub register_signal_context : Context → Global → Global
unfolding lookup insert
register_signal_context ctx g = record {
  sig_map = insert ctx.id ctx g.sig_map;
  sig_map_by_user =
      insert ctx.uid (with_context ctx (lookup ctx.uid g.sig_map_by_user)) g.sig_map_by_user;
}

-- The user's sessions are stored, or the user is forgotten.
abbrev pub stored : String → List Context → AssocMap (List Context) → AssocMap (List Context)
stored uid [] m = erase uid m
stored uid (c ∷ ctxs) m = insert uid (c ∷ ctxs) m

abbrev pub without_context :
    String → String → Option (List Context) → AssocMap (List Context) → AssocMap (List Context)
without_context id uid none m = m
without_context id uid (some ctxs) m =
    stored uid (slice_remove_if_ignore_order ctxs (λ v. str_eq v.id id)) m

abbrev pub close_found : String → Global → Option Context → Global × Option Context
close_found id g none = (g, none)
close_found id g (some ctx) = (
  record {
    sig_map = erase id g.sig_map;
    sig_map_by_user =
        without_context id ctx.uid (lookup ctx.uid g.sig_map_by_user) g.sig_map_by_user;
  },
  some ctx,
)

-- `CloseSignalContext`, with the session whose `SelfClose` is called
unfoldable pub close_signal_context : String → Global → Global × Option Context
unfolding lookup insert erase slice_remove_if_ignore_order
close_signal_context id g = close_found id g (lookup id g.sig_map)

-- `FindSignalContextById`
unfoldable pub find_signal_context_by_id : String → Global → Option Context
unfolding lookup
find_signal_context_by_id id g = lookup id g.sig_map

abbrev pub or_none : Option (List Context) → List Context
or_none none = []
or_none (some ctxs) = ctxs

-- `FindSignalContextByUser`
unfoldable pub find_signal_context_by_user : String → Global → List Context
unfolding lookup
find_signal_context_by_user uid g = or_none (lookup uid g.sig_map_by_user)
