-- ===== src/I18n.antt =====
-- crates/i18n/src: negotiation of the locale, messages, time zones, formatting of instants and the
-- helpers of the templates.
pub mod Escaping
pub mod Negotiation
pub mod FormatterReuse
pub mod Locale
pub mod Tz
pub mod Messages
pub mod Datetime
pub mod Helpers
