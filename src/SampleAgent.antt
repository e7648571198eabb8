-- ===== src/SampleAgent.antt =====
-- providers/pydantic-ai-agent/pydantic_ai_agent: what the sample provider does around its model.
-- `History` is history.py, `Resolve` is resolve.py, `Delegate` the tool of sub_agent_tool.py,
-- `SoukTools` the tools of souk_tools.py, and `Conversations` the runs of main.py.
pub mod History
pub mod Resolve
pub mod Delegate
pub mod SoukTools
pub mod Conversations
