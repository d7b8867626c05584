-- ===== src/Mcu/Resource.antt =====
-- internal/kwm/mcu/models.go and client.go: the resources that the HTTP API shows of a client.
use kwmbridge.Base.{
  ℕ, Bool, Option, none, some, List, [], ◌∷◌, map, if◌then◌else◌, Text, is_empty, length, lookup,
  text_key,
}
use kwmbridge.Mcu.Client.{AttachedRecord, Client, Outside}

pub record ClientResource : Type 0 where
  pub id : Text
  pub uri : Text
  pub connected : Bool
  pub attached_count : ℕ

pub record AttachedResource : Type 0 where
  pub plugin_number : ℕ  -- what the record of the resource is read for
  pub id : Text
  pub when : ℕ
  pub bridge : Text
  pub plugin : Text
  pub handle : ℕ
  pub summary : Option Text

-- The method Resource of a client.
unfoldable pub resource : Client → ClientResource
resource c = record {
  id = c.id;
  uri = c.base_uri;
  connected = c.ws;
  attached_count = length c.attached;
}

module _ (w : Outside) where
  unfoldable pub new_attached_resource : AttachedRecord → AttachedResource
  new_attached_resource r = record {
    plugin_number = r.plugin;
    id = r.message.transaction;
    when = r.when;
    bridge = w.bridge r.plugin;
    plugin = r.message.plugin;
    handle = r.message.handle;
    summary = w.summary r.plugin;
  }

  -- Attached: all resources, or those of one transaction.
  unfoldable pub attached : Client → Text → List AttachedResource
  attached c id =
      if is_empty id
      then map (λ (e : Text × AttachedRecord). new_attached_resource e.1) c.attached
      else elim (lookup id c.attached) [ none ↦ [] | some r ↦ new_attached_resource r ∷ [] ]

  -- BridgeHTTPHandler: the plugin, where it serves HTTP.
  unfoldable pub bridge_http_handler : AttachedResource → Option ℕ
  bridge_http_handler r = if w.handles_http r.plugin_number then some r.plugin_number else none
