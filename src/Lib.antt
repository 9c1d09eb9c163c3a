-- ===== src/Lib.antt =====
-- A model of the core of the metasearch engine under services/searxng/searx: who may ask (the
-- limiter and the bot detection), which engines are asked and for how long (search), how their
-- results are collected, merged and ordered (results), the settings of a user (preferences) and of
-- the site (settings_loader, settings_defaults), and what comes before a search: the parsing of the
-- query and of the form (query, webadapter) and the external bangs (external_bang). Of the engines
-- the query language of json_engine is modelled. The other parts of the repository are adapters,
-- web pages and tools, and are not modelled.
--
-- A request first passes services/searxng/searx/botdetection/trusted_proxies.py, which sets
-- REMOTE_ADDR, and limiter.py, which runs the filters of botdetection in their order. The web
-- adapter reads the form: it parses the query into commands and text and picks the engines. A
-- search then asks the processors of the engines, each in a thread; each hands its results over to
-- one shared container. Before that an external bang or an answerer may end the search, and the
-- plugins are called before a search, for each result, and after the search, when the container is
-- closed. It is ordered when the page is rendered.
--
-- The configuration of the limiter (botdetection/config.py) and the settings of the site
-- (settings_loader.py) are trees, which are read from files and updated key by key; the settings
-- are then checked against a schema (settings_defaults.py).
--
--   Prelude         lists, dictionaries in insertion order, texts, equality tests
--   Tree            the data of YAML and TOML files, dictionaries with Python's get and set, and
--                   the loop that sets keys one by one (Laws); Partial chains code that may raise
--   Botdetection    searx/botdetection: TrustedProxies (trusted_proxies.py), IpLists
--                   (ip_lists.py), Headers (http_accept*.py, http_connection.py,
--                   http_user_agent.py, http_sec_fetch.py), IpLimit (ip_limit.py), LinkToken
--                   (link_token.py), Net (_helpers.py), Valkey (valkeylib.py), and Config
--                   (config.py, with its update, validation, from_toml in Load, and get and set in
--                   Access)
--   Limiter         searx/limiter.py, filter_request
--   Settings        searx/settings_loader.py: Merge (update_dict), Engines (the list of engines),
--                   Load (update_settings, load_settings), and Schema (settings_defaults.py,
--                   SettingsValue and apply_schema; Typed says what settings of a schema are)
--   Results         searx/results.py and searx/result_types: Types, Normalize and Merge (_base.py,
--                   main results), Infobox, Answers (answer.py), Container (extend), Grouping and
--                   Ordered (scores, close, get_ordered_results)
--   Query           searx/query.py: Types (RawTextQuery, and VALID_LANGUAGE_CODE of webutils.py),
--                   Language and Commands (the parsers of parts), Raw (_parse_query, getFullQuery)
--   WebAdapter      searx/webadapter.py: Fields (page, language, time range), Engines (categories
--                   and engines), Assemble (get_search_query_from_webapp)
--   ExternalBang    searx/external_bang.py: the trie, the definitions, the redirection
--   Search          searx/search: Suspended and Processor (processors/abstract.py), Requests
--                   (__init__.py, _get_requests), Threads (search_multiple_requests, with
--                   processors/online.py), Whole (Search.search, SearchWithPlugins.search)
--   Plugins         Storage (searx/plugins/_core.py, PluginStorage) and Answerers
--                   (searx/answerers/_core.py, AnswerStorage)
--   Preferences     searx/preferences.py, one module for each class of settings, Whole
--                   (Preferences, parse_dict) and Form (parse_form)
--   JsonEngine      searx/engines/json_engine.py: the query of a JSON document by a path of keys;
--                   Positions lists the values of a document with their paths
--   Metrics         searx/metrics/models.py, histograms and counters
--   Tests           sample data, runs, and an instance of each result
--
-- State is passed explicitly: an operation takes the state and returns the new one. A missing key
-- and an exception are values: an Option where nothing has changed yet, and an Outcome, which
-- holds the state at the exception, where something may have changed; the web adapter has a
-- Result, whose Fault is the exception. The threads of a search are a relation of steps between
-- states, and a whole search is a relation between the container before it and the outcome.
-- Python's `if` chains are translated in their order. Loops are recursions over the lists they
-- walk, so that no fuel is needed and all functions are total.
--
-- Parameters stand for code outside of the repository: Python's ipaddress (IpAddress), werkzeug's
-- parse_list_header, the commands of the Valkey database (Valkey, with a database in memory as an
-- instance), urllib.parse and the codec idna (UrlLib, Urls), Python's Unicode tables (Unicode),
-- the loaded engines and locales (Setup), floats (Float), `hash` and the callback of the container
-- (Env), Python's `==` on trees (is_equal), os.environ, os.path.isdir and msgspec (environ, is_dir
-- and convert of Settings/Schema), the formatting `%` of the texts of the limiter's configuration
-- (replaced of Botdetection/Config), `str` of an index. The methods of the plugins and answerers,
-- which may be anyone's, are fields of Plugin and Answerer. Hypotheses on them are named in the
-- theorems.
--
-- Numbers are natural numbers: seconds, counters, readings of the clock. `int` reads at most 4300
-- digits, the default of Python, and a number from 2^1024 - 2^970 on is too large for a float.
-- Texts whose characters matter are lists of characters. Not modelled: log lines, the places where
-- metrics are written, the times that threads take (a `join` may come back late at any moment),
-- dates of results, the single plugins and answerers and their import, the sharing of objects by
-- YAML aliases, keys of YAML files that are no texts, the search for the folder of the settings,
-- the completions of bangs beyond the first letters, caches, the table of the schema, the other
-- engines, the network and the web pages.
pub mod Prelude
pub mod Tree
pub mod Settings
pub mod Botdetection
pub mod Limiter
pub mod Results
pub mod Query
pub mod WebAdapter
pub mod ExternalBang
pub mod Search
pub mod Plugins
pub mod JsonEngine
pub mod Metrics
pub mod Preferences
pub mod Tests
