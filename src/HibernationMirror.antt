-- ===== src/HibernationMirror.antt =====
-- src/server/hibernation-mirror.ts: the sockets that outlive an actor's container. A socket is a
-- number, and an entry is copied by value.
pub mod Restore
use do_runtime.Common.{
  ℕ, Option, none, some, List, [], ◌∷◌, map, String, Result, ok, err, lookup, insert, erase, nat_eq,
}

pub record MirroredWebSocket : Type 0 where
  pub socket : ℕ
  pub tags : List String
  pub attachment : Option (List ℕ)
  pub auto_response_timestamp : Option ℕ

-- What a host hands over; it need not name tags.
pub record RehydratedWebSocket : Type 0 where
  pub socket : ℕ
  pub tags : Option (List String)
  pub attachment : Option (List ℕ)
  pub auto_response_timestamp : Option ℕ

pub record HibernationAutoResponse : Type 0 where
  pub request : String
  pub response : String

pub record HibernationMirror : Type 0 where
  pub entries : List (ℕ × MirroredWebSocket)
  pub auto_response_pair : Option HibernationAutoResponse

pub data MirrorError : Type 0 where
  attachment_too_early auto_response_too_early : MirrorError

abbrev pub tags_or_none : Option (List String) → List String
tags_or_none none = []
tags_or_none (some tags) = tags

-- `cloneEntry`.
abbrev pub clone_entry : RehydratedWebSocket → MirroredWebSocket
clone_entry v = record {
  socket = v.socket;
  tags = tags_or_none v.tags;
  attachment = v.attachment;
  auto_response_timestamp = v.auto_response_timestamp;
}

abbrev pub as_rehydrated : MirroredWebSocket → RehydratedWebSocket
as_rehydrated e = record {
  socket = e.socket;
  tags = some e.tags;
  attachment = e.attachment;
  auto_response_timestamp = e.auto_response_timestamp;
}

-- The loop of the constructor.
unfoldable pub rehydrate :
    List RehydratedWebSocket → List (ℕ × MirroredWebSocket) → List (ℕ × MirroredWebSocket)
rehydrate [] entries = entries
rehydrate (v ∷ vs) entries = rehydrate vs (insert v.socket (clone_entry v) entries)

unfoldable pub construct :
    List RehydratedWebSocket → Option HibernationAutoResponse → HibernationMirror
unfolding rehydrate
construct vs pair = record { entries = rehydrate vs []; auto_response_pair = pair }

abbrev pub accepted : ℕ → List String → HibernationMirror → HibernationMirror
accepted socket tags m = record m {
  entries =
      insert socket
        (record { socket = socket; tags = tags; attachment = none; auto_response_timestamp = none })
        m.entries;
}

abbrev pub set_or_throw :
    Option MirroredWebSocket
    → MirrorError
    → ℕ
    → (MirroredWebSocket → MirroredWebSocket)
    → HibernationMirror
    → Result MirrorError HibernationMirror
set_or_throw none e socket f m = err e
set_or_throw (some entry) e socket f m =
    ok (record m { entries = insert socket (f entry) m.entries })

-- `null` deletes the attachment.
abbrev pub attachment :
    ℕ → Option (List ℕ) → HibernationMirror → Result MirrorError HibernationMirror
attachment socket bytes m =
    set_or_throw (lookup socket m.entries) attachment_too_early socket
      (λ entry. record entry { attachment = bytes }) m

abbrev pub auto_response : Option HibernationAutoResponse → HibernationMirror → HibernationMirror
auto_response pair m = record m { auto_response_pair = pair }

abbrev pub auto_response_timestamp :
    ℕ → ℕ → HibernationMirror → Result MirrorError HibernationMirror
auto_response_timestamp socket timestamp m =
    set_or_throw (lookup socket m.entries) auto_response_too_early socket
      (λ entry. record entry { auto_response_timestamp = some timestamp }) m

abbrev pub closed : ℕ → HibernationMirror → HibernationMirror
closed socket m = record m { entries = erase socket m.entries }

unfoldable pub values : List (ℕ × MirroredWebSocket) → List RehydratedWebSocket
values [] = []
values ((_, e) ∷ entries) = as_rehydrated e ∷ values entries

abbrev pub snapshot : HibernationMirror → List RehydratedWebSocket
snapshot m = values m.entries
