-- ===== src/Preferences.antt =====
-- searx/preferences.py: the settings of a user. A cookie's value is a list of characters.
pub mod Setting
pub mod EnumStringSetting
pub mod MultipleChoiceSetting
pub mod SetSetting
pub mod SearchLanguageSetting
pub mod MapSetting
pub mod BooleanSetting
pub mod BooleanChoices
pub mod Whole
pub mod Form
pub mod Laws
